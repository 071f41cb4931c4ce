-- ===== src/Core/Daemon/Resume.antt =====
-- What becomes of a role when peers come and go.
use flowkey.Base.{String, true, false, Option, none, some, [], ◌≡◌, ◌≢◌, arith, eq_iff, String_eq}
use flowkey.Base.Assoc.{remove, lookup-remove}
use flowkey.Base.Result.{ok}
use flowkey.Core.Daemon.{
  DaemonState, disconnected, connected_idle, controlling, controlled_by, recovering, Role, Sessions,
  DaemonRuntime, contains_key, mark_authenticated, mark_disconnected,
}
use flowkey.Core.Daemon.Invariant.{Inv, lookup_of_empty}

-- The state that a role is.
abbrev pub in_role : Role → String → DaemonState
in_role Role.controlling peer = controlling peer
in_role Role.controlled_by peer = controlled_by peer

module _ (first_key : Sessions → Option String) (r : DaemonRuntime) (v : Inv r)
    (peer : String) where
  -- What the runtime is after the loss of the peer.
  abbrev lost : DaemonRuntime
  lost = (mark_disconnected first_key peer r).0

  -- Losing the peer that the runtime controls, or is controlled by, while another peer keeps its
  -- session: the runtime recovers, keeps that peer as the active one and the role as the intended
  -- one, and hands the role back as soon as that peer authenticates again, then idle.
  pub resume_restores_role :
      (role : Role) (other : String)
      → r.state ≡ in_role role peer
      → peer ≢ other
      → contains_key other r.sessions ≡ true
      → (lost.state ≡ recovering (some role))
        × (lost.active_peer_id ≡ some peer)
        × ((mark_authenticated peer lost).1 ≡ ok (some role))
        × ((mark_authenticated peer lost).0.state ≡ connected_idle)
        × ((mark_authenticated peer lost).0.active_peer_id ≡ some peer)
  unfolding mark_disconnected mark_authenticated
  resume_restores_role role other s d c = ground (
    arith,
    v.fits,
    v.named,
    lookup-remove peer other r.sessions,
    lookup-remove peer peer r.sessions,
    lookup_of_empty other (remove peer r.sessions),
    eq_iff peer peer,
    eq_iff peer other,
    eq_iff peer "",
  )

  -- Losing the only peer forgets the role: the runtime is disconnected, and when the peer
  -- authenticates again no role is handed back.
  pub sole_peer_role_forgotten :
      (role : Role)
      → r.state ≡ in_role role peer
      → remove peer r.sessions ≡ []
      → (lost.state ≡ disconnected)
        × ((mark_authenticated peer lost).1 ≡ ok none)
        × ((mark_authenticated peer lost).0.state ≡ connected_idle)
  unfolding mark_disconnected mark_authenticated
  sole_peer_role_forgotten role s only = ground (
    arith,
    v.fits,
    v.named,
    lookup_of_empty peer (remove peer r.sessions),
    eq_iff peer peer,
    eq_iff peer "",
  )

  -- A peer that joins while another one is in control ends that control: the runtime is idle, with
  -- the same active peer, and no role is handed back.
  pub newcomer_ends_control :
      (role : Role) (newcomer : String)
      → r.state ≡ in_role role peer
      → newcomer ≢ ""
      → contains_key newcomer r.sessions ≡ false
      → ((mark_authenticated newcomer r).1 ≡ ok none)
        × ((mark_authenticated newcomer r).0.state ≡ connected_idle)
        × ((mark_authenticated newcomer r).0.active_peer_id ≡ some peer)
  unfolding mark_authenticated
  newcomer_ends_control role newcomer s n c = ground (arith, v.fits, eq_iff newcomer "")
