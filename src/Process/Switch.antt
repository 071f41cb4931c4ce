-- ===== src/Process/Switch.antt =====
-- The switch command against the runtime's invariant: what it does on each branch.
use flowkey.Base.{
  String, true, false, Option, none, some, ◌≡◌, arith, eq_iff, String_eq, Bool_eq, Option-cases,
  inl, inr, if◌then◌else◌,
}
use flowkey.Base.Assoc.{lookup}
use flowkey.Base.Result.{ok, err}
use flowkey.Core.Daemon.{
  DaemonRuntime, DaemonState, connected_idle, controlling, contains_key, select_active_peer,
  toggle_controller, release_control, active_must_be_authenticated,
}
use flowkey.Core.Daemon.Invariant.{Inv, lookup_of_empty}
use flowkey.Process.State.{in_control_session}
use flowkey.Process.Control.{switch_runtime}

-- The state that control leaves.
abbrev pub let_go : DaemonState → DaemonState
let_go s = if in_control_session s then connected_idle else s

-- The peer that a switch leaves.
abbrev pub previous_peer : DaemonRuntime → Option String
previous_peer r = if in_control_session r.state then r.active_peer_id else none

module _ (peer : String) (r : DaemonRuntime) (v : Inv r) where
  pub switch_runtime-known :
      contains_key peer r.sessions ≡ true
      → switch_runtime peer r
        ≡ (record r { state = controlling peer; active_peer_id = some peer }, ok (previous_peer r))
  unfolding switch_runtime release_control select_active_peer toggle_controller
  switch_runtime-known h = elim (Option-cases (lookup peer r.sessions)) [
    | inl e ↦ ground (arith, e)
    | inr (s, e) ↦
        ground (arith, v.known peer s e, v.fits, lookup_of_empty peer r.sessions, eq_iff peer peer)
  ]

  pub switch_runtime-unknown :
      contains_key peer r.sessions ≡ false
      → switch_runtime peer r
        ≡ (record r { state = let_go r.state }, err active_must_be_authenticated)
  unfolding switch_runtime release_control select_active_peer toggle_controller
  switch_runtime-unknown h = ground (arith, v.known peer, v.fits)
