-- ===== src/Process/State.antt =====
-- What the tasks of the daemon process in crates/flowkey-daemon/src share: the runtime, the registry
-- of session senders, the flag that suppresses local input, and the published status. A mutex is not
-- poisoned. The status file, which repeats the snapshot, is left out.
use flowkey.Base.{String, Bool, true, false, if◌then◌else◌, none, some, List, []}
use flowkey.Base.Assoc.{lookup, insert}
use flowkey.Base.Result.{ok, err}
use flowkey.Core.Daemon.{
  DaemonState, controlling, controlled_by, DaemonRuntime, Outcome, new_runtime,
}
use flowkey.Core.Status.{RuntimeSnapshot, from_runtime}
use flowkey.Net.Sender.Channel.{SendChannel, switch_control, release_control, release_all}
use flowkey.Net.Sender.State.{Sender}
use flowkey.Net.Sender.{send_control_command}

pub record Daemon (C : Type 0) : Type 0 where
  pub runtime : DaemonRuntime
  pub session_senders : List (String × Sender C)
  pub suppression_state : Bool
  pub status_snapshot : RuntimeSnapshot

-- `matches!(state, DaemonState::Controlling { .. })`.
abbrev pub is_controlling : DaemonState → Bool
is_controlling (controlling _) = true
is_controlling _ = false

-- `matches!(state, DaemonState::Controlling { .. } | DaemonState::ControlledBy { .. })`.
abbrev pub in_control_session : DaemonState → Bool
in_control_session (controlling _) = true
in_control_session (controlled_by _) = true
in_control_session _ = false

-- `?` on a method of the runtime, whose changes stay.
abbrev pub and_then : {A B : Type 0} → Outcome A → (DaemonRuntime → A → Outcome B) → Outcome B
and_then (r, ok a) next = next r a
and_then (r, err e) next = (r, err e)

-- What the first method's runtime has and the rest keeps, the chain's runtime has.
pub and_then-keeps :
    {A B : Type 0} (P : DaemonRuntime → Type 0) (first : Outcome A)
    (next : DaemonRuntime → A → Outcome B)
    → P first.0
    → ((r : DaemonRuntime) (a : A) → P r → P (next r a).0)
    → P (and_then first next).0
and_then-keeps P (r, ok a) next h keep = keep r a h
and_then-keeps P (r, err e) next h keep = h

-- A method that is called only on a condition.
pub if-keeps :
    {A : Type 0} (P : DaemonRuntime → Type 0) (c : Bool) (one other : Outcome A)
    → P one.0
    → P other.0
    → P (if c then one else other).0
if-keeps P true one other h k = h
if-keeps P false one other h k = k

module _ {C : Type 0} (sort : List String → List String) where
  -- The state in which the process starts.
  unfoldable pub new_daemon : Daemon C
  new_daemon = record {
    runtime = new_runtime;
    session_senders = [];
    suppression_state = false;
    status_snapshot = from_runtime sort new_runtime;
  }

  -- `publish_status_snapshot`.
  unfoldable pub publish_status_snapshot : Daemon C → Daemon C
  publish_status_snapshot d = record d { status_snapshot = from_runtime sort d.runtime }

-- A sender that was looked up is shared: what it does is seen through the registry.
abbrev pub with_sender :
    {C : Type 0}
    → String
    → (Sender C → Sender C)
    → List (String × Sender C)
    → List (String × Sender C)
with_sender peer change senders = elim (lookup peer senders) [
  | none ↦ senders
  | some s ↦ insert peer (change s) senders
]

module _ {C : Type 0} (ch : SendChannel C) where
  -- `send_switch`; its error is logged.
  unfoldable pub send_switch : String → Sender C → Sender C
  send_switch request s = (send_control_command ch (switch_control request) s).0

  -- `send_release` and then `send_release_all`; their errors are logged.
  unfoldable pub send_releases : String → Sender C → Sender C
  send_releases request s =
      (send_control_command ch release_all
        (send_control_command ch (release_control request) s).0).0

  unfoldable pub notify_peer_switch : String → String → Daemon C → Daemon C
  unfolding send_switch
  notify_peer_switch peer request d = record d {
    session_senders = with_sender peer (send_switch request) d.session_senders;
  }

  unfoldable pub notify_peer_release : String → String → Daemon C → Daemon C
  unfolding send_releases
  notify_peer_release peer request d = record d {
    session_senders = with_sender peer (send_releases request) d.session_senders;
  }
