-- ===== src/Core/Daemon.antt =====
-- crates/flowkey-core/src/daemon.rs and session.rs: the control state of one daemon. A method that
-- takes `&mut self` returns the new runtime with its result; an error message is a constructor.
-- The iteration order of the session map is the argument `first_key` of `mark_disconnected`.
pub mod Invariant
pub mod Calls
pub mod History
pub mod Resume
use flowkey.Base.{
  ℕ, String, Bool, true, false, not, Option, none, some, is_some, List, [], is_empty_list, ◌==◌,
  String_eq, if◌then◌else◌,
}
use flowkey.Base.Assoc.{lookup, insert, remove}
use flowkey.Base.Result.{Result, ok, err}

pub record Session : Type 0 where
  pub peer_id : String
  pub connected : Bool
  pub healthy : Bool
  pub authenticated : Bool

-- `Session::authenticated`.
abbrev pub authenticated_session : String → Session
authenticated_session peer_id = record {
  peer_id = peer_id;
  connected = true;
  healthy = true;
  authenticated = true;
}

pub data Role : Type 0 where
  controlling controlled_by : Role

pub data DaemonState : Type 0 where
  disconnected : DaemonState
  connected_idle : DaemonState
  controlling : String → DaemonState
  controlled_by : String → DaemonState
  recovering : Option Role → DaemonState

pub record RuntimeDiagnostics : Type 0 where
  pub local_capture_enabled : Bool
  pub input_injection_backend : String
  pub capture_restarts : ℕ
  pub notes : List String

abbrev pub default_diagnostics : RuntimeDiagnostics
default_diagnostics = record {
  local_capture_enabled = false;
  input_injection_backend = "unconfigured";
  capture_restarts = 0;
  notes = [];
}

abbrev pub Sessions : Type 0
Sessions = List (String × Session)

pub record DaemonRuntime : Type 0 where
  pub state : DaemonState
  pub sessions : Sessions
  pub active_peer_id : Option String
  pub diagnostics : RuntimeDiagnostics

pub data RuntimeError : Type 0 where
  empty_peer_id daemon_disconnected daemon_recovering : RuntimeError
  duplicate_session not_in_active_sessions active_not_in_sessions : String → RuntimeError
  active_must_be_authenticated no_active_peer active_not_authenticated : RuntimeError
  must_release_control controlled_must_be_authenticated : RuntimeError

-- A method's outcome.
abbrev pub Outcome : Type 0 → Type 0
Outcome A = DaemonRuntime × Result RuntimeError A

unfoldable pub new_runtime : DaemonRuntime
new_runtime = record {
  state = disconnected;
  sessions = [];
  active_peer_id = none;
  diagnostics = default_diagnostics;
}

abbrev pub contains_key : String → Sessions → Bool
contains_key k m = is_some (lookup k m)

-- `active.as_deref() == Some(peer_id)`.
abbrev pub is_active : Option String → String → Bool
is_active none peer = false
is_active (some active) peer = active == peer

-- `session.map(|s| s.authenticated).unwrap_or(false)`.
abbrev pub is_authenticated : Option Session → Bool
is_authenticated none = false
is_authenticated (some s) = s.authenticated

-- The peer joins the sessions, and is the active one if there was none.
register : String → DaemonRuntime → DaemonRuntime
register peer r = record r {
  sessions = insert peer (authenticated_session peer) r.sessions;
  active_peer_id = elim r.active_peer_id [ none ↦ some peer | some active ↦ some active ];
}

-- A recovering runtime leaves recovery, with its role, only for the active peer.
resume : DaemonState → String → DaemonRuntime → Outcome (Option Role)
resume (recovering role) peer r =
    if is_active r.active_peer_id peer
    then (record r { state = connected_idle }, ok role)
    else (r, ok none)
resume _ peer r = (record r { state = connected_idle }, ok none)

unfoldable pub mark_authenticated : String → DaemonRuntime → Outcome (Option Role)
unfolding register resume
mark_authenticated peer r =
    if peer == ""
    then (r, err empty_peer_id)
    else if contains_key peer r.sessions
    then (r, err (duplicate_session peer))
    else resume r.state peer (register peer r)

-- The role that a runtime which loses its active peer means to take up again.
intended_role : DaemonState → Option Role
intended_role (controlling _) = some Role.controlling
intended_role (controlled_by _) = some Role.controlled_by
intended_role (recovering role) = role
intended_role _ = none

-- The part of `mark_disconnected` behind its guards, on the sessions that are left.
lose : (Sessions → Option String) → String → Sessions → DaemonRuntime → DaemonRuntime
unfolding intended_role
lose first_key peer rest r =
    if is_empty_list rest
    then record r { sessions = rest; state = disconnected; active_peer_id = none }
    else if is_active r.active_peer_id peer
    then record r { sessions = rest; state = recovering (intended_role r.state) }
    else record r {
      sessions = rest;
      active_peer_id = elim r.active_peer_id [ none ↦ first_key rest | some active ↦ some active ];
    }

unfoldable pub mark_disconnected :
    (Sessions → Option String) → String → DaemonRuntime → Outcome (Unit {0})
unfolding lose
mark_disconnected first_key peer r =
    if peer == ""
    then (r, err empty_peer_id)
    else if not (contains_key peer r.sessions)
    then (r, err (not_in_active_sessions peer))
    else (lose first_key peer (remove peer r.sessions) r, ok tt)

-- The state after another peer was selected.
retarget : DaemonState → String → DaemonState
retarget (recovering _) peer = connected_idle
retarget (controlling _) peer = controlling peer
retarget (controlled_by _) peer = controlled_by peer
retarget s peer = s

unfoldable pub select_active_peer : String → DaemonRuntime → Outcome (Unit {0})
unfolding retarget
select_active_peer peer r =
    if is_authenticated (lookup peer r.sessions)
    then (record r { active_peer_id = some peer; state = retarget r.state peer }, ok tt)
    else (r, err active_must_be_authenticated)

take_control : Option String → DaemonRuntime → Outcome (Unit {0})
take_control none r = (r, err no_active_peer)
take_control (some peer) r =
    if not (is_authenticated (lookup peer r.sessions))
    then (r, err active_not_authenticated)
    else (record r { state = controlling peer }, ok tt)

toggle : DaemonState → DaemonRuntime → Outcome (Unit {0})
unfolding take_control
toggle connected_idle r = take_control r.active_peer_id r
toggle (controlling _) r = (record r { state = connected_idle }, ok tt)
toggle (controlled_by _) r = (record r { state = connected_idle }, ok tt)
toggle disconnected r = (r, err daemon_disconnected)
toggle (recovering _) r = (r, err daemon_recovering)

unfoldable pub toggle_controller : DaemonRuntime → Outcome (Unit {0})
unfolding toggle
toggle_controller r = toggle r.state r

-- Is the runtime controlling some peer other than this one?
controls_other : DaemonState → String → Bool
controls_other (controlling current) peer = not (current == peer)
controls_other _ peer = false

unfoldable pub mark_controlled_by : String → DaemonRuntime → Outcome (Unit {0})
unfolding controls_other
mark_controlled_by peer r =
    if peer == ""
    then (r, err empty_peer_id)
    else if not (is_authenticated (lookup peer r.sessions))
    then (r, err controlled_must_be_authenticated)
    else if controls_other r.state peer
    then (r, err must_release_control)
    else (record r { active_peer_id = some peer; state = controlled_by peer }, ok tt)

release : DaemonState → DaemonRuntime → Outcome (Unit {0})
release (controlling peer) r =
    if not (contains_key peer r.sessions)
    then (r, err (active_not_in_sessions peer))
    else (record r { state = connected_idle }, ok tt)
release (controlled_by _) r = (record r { state = connected_idle }, ok tt)
release connected_idle r = (r, ok tt)
release disconnected r = (r, err daemon_disconnected)
release (recovering _) r = (r, err daemon_recovering)

unfoldable pub release_control : DaemonRuntime → Outcome (Unit {0})
unfolding release
release_control r = release r.state r

unfoldable pub enter_recovering : DaemonRuntime → DaemonRuntime
enter_recovering r = record r { state = recovering none }
