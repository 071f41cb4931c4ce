-- ===== src/Core/Daemon/Calls.antt =====
-- The methods of `DaemonRuntime` as calls of one interface, and histories of calls.
use flowkey.Base.{
  String, Bool, true, false, Option, none, some, List, [], ◌∷◌, ◌≡◌, refl, ◌⊎◌, arith, String_eq,
}
use flowkey.Base.Result.{ok, err}
use flowkey.Core.Daemon.{
  DaemonState, controlling, connected_idle, Role, Sessions, DaemonRuntime, Outcome, RuntimeError,
  new_runtime, mark_authenticated, mark_disconnected, select_active_peer, toggle_controller,
  mark_controlled_by, release_control, enter_recovering,
}
use flowkey.Core.Daemon.Invariant.{
  Inv, new_runtime-Inv, mark_authenticated-Inv, mark_disconnected-Inv, select_active_peer-Inv,
  toggle_controller-Inv, mark_controlled_by-Inv, release_control-Inv, enter_recovering-Inv,
}

pub data Call : Type 0 where
  authenticates disconnects selects controlled_from : String → Call
  toggles releases recovers : Call

-- A method that returns `()` has no role to resume.
abbrev no_role : Outcome (Unit {0}) → Outcome (Option Role)
no_role (r, ok _) = (r, ok none)
no_role (r, err e) = (r, err e)

pub no_role-fst : (o : Outcome (Unit {0})) → (no_role o).0 ≡ o.0
no_role-fst (r, ok _) = refl
no_role-fst (r, err e) = refl

abbrev is_controlling : DaemonState → Bool
is_controlling (controlling _) = true
is_controlling _ = false

-- The ways into control.
abbrev pub BeginsControl : Call → DaemonRuntime → String → Type 0
BeginsControl toggles r peer = (r.state ≡ connected_idle) × (r.active_peer_id ≡ some peer)
BeginsControl (selects p) r peer = (p ≡ peer) × (is_controlling r.state ≡ true)
BeginsControl _ r peer = ⊥

module _ (first_key : Sessions → Option String) where
  unfoldable pub call : Call → DaemonRuntime → Outcome (Option Role)
  call (authenticates peer) r = mark_authenticated peer r
  call (disconnects peer) r = no_role (mark_disconnected first_key peer r)
  call (selects peer) r = no_role (select_active_peer peer r)
  call (controlled_from peer) r = no_role (mark_controlled_by peer r)
  call toggles r = no_role (toggle_controller r)
  call releases r = no_role (release_control r)
  call recovers r = (enter_recovering r, ok none)

  unfoldable pub run : List Call → DaemonRuntime → DaemonRuntime
  unfolding call
  run [] r = r
  run (c ∷ cs) r = run cs (call c r).0

  call-Inv : (c : Call) (r : DaemonRuntime) → Inv r → Inv (call c r).0
  unfolding call
  call-Inv (authenticates peer) r v = mark_authenticated-Inv r v peer
  call-Inv (disconnects peer) r v =
      ground (arith, mark_disconnected-Inv r v first_key peer, mark_disconnected first_key peer r)
  call-Inv (selects peer) r v = ground (arith, select_active_peer-Inv r v peer)
  call-Inv (controlled_from peer) r v = ground (arith, mark_controlled_by-Inv r v peer)
  call-Inv toggles r v = ground (arith, toggle_controller-Inv r v)
  call-Inv releases r v = ground (arith, release_control-Inv r v)
  call-Inv recovers r v = enter_recovering-Inv r v

  run_from-Inv : (cs : List Call) (r : DaemonRuntime) → Inv r → Inv (run cs r)
  unfolding run
  run_from-Inv [] r v = v
  run_from-Inv (c ∷ cs) r v = run_from-Inv cs (call c r).0 (call-Inv c r v)

  -- After any history of calls on a new runtime the invariant holds: each session is the
  -- authenticated session of the peer it is kept for, no peer has the empty name, an unset active
  -- peer means that there is no session, and the state fits: disconnected has no session and no
  -- active peer, idle has an active peer with a session, controlling and controlled-by name the
  -- active peer, which has a session.
  pub run-Inv : (cs : List Call) → Inv (run cs new_runtime)
  run-Inv cs = run_from-Inv cs new_runtime new_runtime-Inv

  -- A call that returns an error leaves the runtime as it was.
  pub failed_call_unchanged :
      (c : Call) (r : DaemonRuntime) (e : RuntimeError) → (call c r).1 ≡ err e → (call c r).0 ≡ r
  unfolding call mark_authenticated mark_disconnected select_active_peer toggle_controller
      mark_controlled_by release_control
  failed_call_unchanged (authenticates peer) r e h = ground arith
  failed_call_unchanged (disconnects peer) r e h = ground arith
  failed_call_unchanged (selects peer) r e h = ground arith
  failed_call_unchanged (controlled_from peer) r e h = ground arith
  failed_call_unchanged toggles r e h = ground arith
  failed_call_unchanged releases r e h = ground arith
  failed_call_unchanged recovers r e h = ground arith

  -- A runtime controls a peer after a call only if it did so before, or was idle and toggled with
  -- that peer active, or selected that peer while it controlled another one.
  pub control_begins :
      (c : Call) (r : DaemonRuntime) (peer : String)
      → (call c r).0.state ≡ controlling peer
      → (r.state ≡ controlling peer) ⊎ BeginsControl c r peer
  unfolding call mark_authenticated mark_disconnected select_active_peer toggle_controller
      mark_controlled_by release_control enter_recovering
  control_begins (authenticates p) r peer h = ground arith
  control_begins (disconnects p) r peer h = ground arith
  control_begins (selects p) r peer h = ground arith
  control_begins (controlled_from p) r peer h = ground arith
  control_begins toggles r peer h = ground arith
  control_begins releases r peer h = ground arith
  control_begins recovers r peer h = ground arith
