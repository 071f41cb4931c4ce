-- ===== src/Process/Control.antt =====
-- crates/flowkey-daemon/src/control_ipc.rs: the control commands of crates/flowkey-core/src/switching.rs
-- as the daemon carries them out. The identifier of each request that goes to a peer is an argument.
use flowkey.Base.{
  String, true, false, not, Option, none, some, List, ◌==◌, String_eq, if◌then◌else◌,
}
use flowkey.Base.Result.{Result, ok, err}
use flowkey.Core.Daemon.{
  DaemonRuntime, RuntimeError, Outcome, select_active_peer, toggle_controller, release_control,
}
use flowkey.Net.Sender.Channel.{SendChannel}
use flowkey.Process.State.{
  Daemon, is_controlling, in_control_session, and_then, and_then-keeps, if-keeps,
  publish_status_snapshot, notify_peer_switch, notify_peer_release,
}

pub data DaemonCommand : Type 0 where
  switch : String → DaemonCommand
  release : DaemonCommand

-- What the switch command does under the runtime's lock; the result is the peer it lets go.
unfoldable pub switch_runtime : String → DaemonRuntime → Outcome (Option String)
switch_runtime peer r =
    let previous = if in_control_session r.state then r.active_peer_id else none in
    and_then (if in_control_session r.state then release_control r else (r, ok tt)) λ r1 _.
      and_then (select_active_peer peer r1) λ r2 _.
        and_then (if not (is_controlling r2.state) then toggle_controller r2 else (r2, ok tt))
          λ r3 _. (r3, ok previous)

-- What every method keeps, the switch keeps.
pub switch_runtime-keeps :
    (P : DaemonRuntime → Type 0)
    → ((r : DaemonRuntime) → P r → P (release_control r).0)
    → ((r : DaemonRuntime) (peer : String) → P r → P (select_active_peer peer r).0)
    → ((r : DaemonRuntime) → P r → P (toggle_controller r).0)
    → (peer : String) (r : DaemonRuntime) → P r
    → P (switch_runtime peer r).0
unfolding switch_runtime
switch_runtime-keeps P releasing selecting toggling peer r h =
    and_then-keeps P (if in_control_session r.state then release_control r else (r, ok tt)) _
      (if-keeps P (in_control_session r.state) (release_control r) (r, ok tt) (releasing r h) h)
      λ r1 _ h1. and_then-keeps P (select_active_peer peer r1) _ (selecting r1 peer h1) λ r2 _ h2.
        and_then-keeps P
          (if not (is_controlling r2.state) then toggle_controller r2 else (r2, ok tt)) _
          (if-keeps P (not (is_controlling r2.state)) (toggle_controller r2) (r2, ok tt)
            (toggling r2 h2) h2)
          λ r3 _ h3. h3

module _ {C : Type 0} (ch : SendChannel C) where
  abbrev pub release_previous : Option String → String → String → Daemon C → Daemon C
  release_previous none peer request d = d
  release_previous (some previous) peer request d =
      if not (previous == peer) then notify_peer_release ch previous request d else d

  -- The active peer is told before the runtime is released.
  abbrev pub tell_active : Option String → String → Daemon C → Daemon C
  tell_active none request d = d
  tell_active (some peer) request d = notify_peer_release ch peer request d

module _ {C : Type 0} (sort : List String → List String) (ch : SendChannel C) where
  unfoldable pub after_switch :
      String
      → String
      → String
      → Daemon C
      → Outcome (Option String)
      → Daemon C × Result RuntimeError (Unit {0})
  unfolding publish_status_snapshot notify_peer_switch notify_peer_release
  after_switch peer request_a request_b d (r, ok previous) =
      let switched = record d {
        runtime = r;
        suppression_state = if is_controlling r.state then true else d.suppression_state;
      } in
      (
        notify_peer_switch ch peer request_b
            (release_previous ch previous peer request_a (publish_status_snapshot sort switched)),
        ok tt,
      )
  after_switch peer request_a request_b d (r, err e) = (record d { runtime = r }, err e)

  unfoldable pub after_release :
      Daemon C → Outcome (Unit {0}) → Daemon C × Result RuntimeError (Unit {0})
  unfolding publish_status_snapshot
  after_release d (r, ok _) =
      (publish_status_snapshot sort (record d { runtime = r; suppression_state = false }), ok tt)
  after_release d (r, err e) = (record d { runtime = r }, err e)

  -- `request_a` names the request for a release, and `request_b` the one for a switch.
  unfoldable pub handle_control_command :
      DaemonCommand → String → String → Daemon C → Daemon C × Result RuntimeError (Unit {0})
  unfolding switch_runtime after_switch after_release notify_peer_release
  handle_control_command (switch peer) request_a request_b d =
      after_switch peer request_a request_b d (switch_runtime peer d.runtime)
  handle_control_command release request_a request_b d =
      let told = tell_active ch d.runtime.active_peer_id request_a d in
      after_release told (release_control told.runtime)
