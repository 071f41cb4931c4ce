-- ===== src/Core/Status.antt =====
-- crates/flowkey-core/src/status.rs: what a daemon shows of its state. The order of the connected
-- peers is that of Rust's `sort`, a parameter of which the theorem asks that it keeps the elements.
use flowkey.Base.{
  ℕ, String, Bool, true, false, Option, none, some, List, [], ◌∷◌, ◌≡◌, refl, ◌∙◌, any, arith, ◌==◌,
  String_eq,
}
use flowkey.Base.Assoc.{lookup}
use flowkey.Core.Daemon.{
  DaemonState, disconnected, connected_idle, controlling, controlled_by, recovering, Sessions,
  DaemonRuntime, contains_key, new_runtime,
}
use flowkey.Core.Daemon.Invariant.{StateFits}
use flowkey.Core.Daemon.Calls.{Call, run, run-Inv}

pub record RuntimeSnapshot : Type 0 where
  pub state : String
  pub active_peer_id : Option String
  pub session_healthy : Bool
  pub local_capture_enabled : Bool
  pub capture_restarts : ℕ
  pub input_injection_backend : String
  pub notes : List String
  pub connected_peer_ids : List String

abbrev state_name : DaemonState → String
state_name disconnected = "disconnected"
state_name connected_idle = "connected-idle"
state_name (controlling _) = "controlling"
state_name (controlled_by _) = "controlled-by"
state_name (recovering _) = "recovering"

abbrev shown_peer : DaemonState → Option String → Option String
shown_peer disconnected active = none
shown_peer (controlling peer) active = some peer
shown_peer (controlled_by peer) active = some peer
shown_peer _ active = active

abbrev pub is_healthy : DaemonState → Bool
is_healthy disconnected = false
is_healthy (recovering _) = false
is_healthy _ = true

-- `sessions.keys()`.
abbrev keys : Sessions → List String
keys [] = []
keys ((key, _) ∷ rest) = key ∷ keys rest

module _ (sort : List String → List String) where
  -- `RuntimeSnapshot::from_runtime`.
  unfoldable pub from_runtime : DaemonRuntime → RuntimeSnapshot
  from_runtime r = record {
    state = state_name r.state;
    active_peer_id = shown_peer r.state r.active_peer_id;
    session_healthy = is_healthy r.state;
    local_capture_enabled = r.diagnostics.local_capture_enabled;
    capture_restarts = r.diagnostics.capture_restarts;
    input_injection_backend = r.diagnostics.input_injection_backend;
    notes = r.diagnostics.notes;
    connected_peer_ids = sort (keys r.sessions);
  }

  -- Is the peer in the list?
  abbrev pub lists : String → List String → Bool
  lists peer = any λ id. id == peer

  lists-keys :
      (peer : String) (sessions : Sessions)
      → lists peer (keys sessions) ≡ contains_key peer sessions
  unfolding lookup
  lists-keys peer [] = refl
  lists-keys peer ((key, s) ∷ rest) = ground (arith, lists-keys peer rest)

  shown_of_fits :
      (state : DaemonState) (sessions : Sessions) (active : Option String)
      → StateFits state sessions active
      → is_healthy state ≡ true
      → (peer : String) × (shown_peer state active ≡ some peer)
        × (contains_key peer sessions ≡ true)
  shown_of_fits disconnected sessions active f h = cc
  shown_of_fits connected_idle sessions none f h = cc
  shown_of_fits connected_idle sessions (some peer) f h = (peer, refl, f)
  shown_of_fits (controlling peer) sessions active f h = (peer, refl, f.1)
  shown_of_fits (controlled_by peer) sessions active f h = (peer, refl, f.1)
  shown_of_fits (recovering _) sessions active f h = cc

  -- After any history of calls a status that is shown as healthy shows an active peer, and that peer
  -- is among the connected ones it shows, if sorting keeps the elements of a list.
  pub healthy_shows_connected :
      (keeps : (peer : String) (ids : List String) → lists peer (sort ids) ≡ lists peer ids)
      (first_key : Sessions → Option String) (cs : List Call)
      → (from_runtime (run first_key cs new_runtime)).session_healthy ≡ true
      → (peer : String) × ((from_runtime (run first_key cs new_runtime)).active_peer_id ≡ some peer)
        × (lists peer (from_runtime (run first_key cs new_runtime)).connected_peer_ids ≡ true)
  unfolding from_runtime
  healthy_shows_connected keeps first_key cs h =
      let r = run first_key cs new_runtime in
      let (peer, shown, there) =
        shown_of_fits r.state r.sessions r.active_peer_id (run-Inv first_key cs).fits h in
      (peer, shown, keeps peer (keys r.sessions) ∙ lists-keys peer r.sessions ∙ there)
