-- ===== src/Core/Daemon/Invariant.antt =====
-- What holds of a runtime between two calls, and that every method keeps it.
use flowkey.Base.{
  String, ◌≡◌, refl, Option, none, some, [], ◌∷◌, true, Bool, false, inl, inr, arith, eq_iff, ◌==◌,
  String_eq, Option-cases, if◌then◌else◌,
}
use flowkey.Base.Assoc.{lookup, insert, remove, lookup-insert, lookup-remove}
use flowkey.Core.Daemon.{
  Session, authenticated_session, DaemonState, disconnected, connected_idle, controlling,
  controlled_by, recovering, Sessions, DaemonRuntime, contains_key, new_runtime, mark_authenticated,
  mark_disconnected, select_active_peer, toggle_controller, mark_controlled_by, release_control,
  enter_recovering,
}

-- Is there an active peer, with a session?
abbrev pub has_active : Option String → Sessions → Bool
has_active none sessions = false
has_active (some peer) sessions = contains_key peer sessions

-- What the state says of the sessions and of the active peer.
abbrev pub StateFits : DaemonState → Sessions → Option String → Type 0
StateFits disconnected sessions active = (sessions ≡ []) × (active ≡ none)
StateFits connected_idle sessions active = has_active active sessions ≡ true
StateFits (controlling peer) sessions active =
    (active ≡ some peer) × (contains_key peer sessions ≡ true)
StateFits (controlled_by peer) sessions active =
    (active ≡ some peer) × (contains_key peer sessions ≡ true)
StateFits (recovering _) sessions active = Unit

-- Every session is the authenticated session of the peer under whose name it is kept.
abbrev pub AllKnown : Sessions → Type 0
AllKnown sessions =
    (peer : String) (s : Session) → lookup peer sessions ≡ some s → s ≡ authenticated_session peer

pub record Inv (r : DaemonRuntime) : Type 0 where
  pub known : AllKnown r.sessions
  pub named : lookup "" r.sessions ≡ none
  pub active_set : r.active_peer_id ≡ none → r.sessions ≡ []
  pub fits : StateFits r.state r.sessions r.active_peer_id

pub lookup_of_empty : (peer : String) (m : Sessions) → m ≡ [] → lookup peer m ≡ none
unfolding lookup
lookup_of_empty peer [] e = refl
lookup_of_empty peer (x ∷ m) e = cc

pub new_runtime-Inv : Inv new_runtime
unfolding new_runtime lookup
new_runtime-Inv = record {
  known = λ peer s e. cc;
  named = refl;
  active_set = λ _. refl;
  fits = (refl, refl);
}

AllKnown-insert :
    (peer : String) (m : Sessions)
    → AllKnown m
    → AllKnown (insert peer (authenticated_session peer) m)
AllKnown-insert peer m k j s e =
    ground (arith, lookup-insert peer j (authenticated_session peer) m, eq_iff peer j, k j s)

AllKnown-remove : (peer : String) (m : Sessions) → AllKnown m → AllKnown (remove peer m)
AllKnown-remove peer m k j s e = ground (arith, lookup-remove peer j m, eq_iff peer j, k j s)

-- One lemma for each method.
module _ (r : DaemonRuntime) (v : Inv r) where
  mark_authenticated-known : (peer : String) → AllKnown (mark_authenticated peer r).0.sessions
  unfolding mark_authenticated
  mark_authenticated-known peer j s e =
      ground (arith, AllKnown-insert peer r.sessions v.known j s, v.known j s)

  mark_authenticated-named :
      (peer : String) → lookup "" (mark_authenticated peer r).0.sessions ≡ none
  unfolding mark_authenticated
  mark_authenticated-named peer =
      ground (arith, v.named, lookup-insert peer "" (authenticated_session peer) r.sessions)

  mark_authenticated-active :
      (peer : String)
      → (mark_authenticated peer r).0.active_peer_id ≡ none
      → (mark_authenticated peer r).0.sessions ≡ []
  unfolding mark_authenticated
  mark_authenticated-active peer e = ground (arith, v.active_set)

  contains-register :
      (peer active : String)
      → contains_key active (insert peer (authenticated_session peer) r.sessions)
        ≡ (if peer == active then true else contains_key active r.sessions)
  contains-register peer active =
      ground (arith, lookup-insert peer active (authenticated_session peer) r.sessions)

  mark_authenticated-fits :
      (peer : String)
      → let q = (mark_authenticated peer r).0 in StateFits q.state q.sessions q.active_peer_id
  unfolding mark_authenticated
  mark_authenticated-fits peer = elim (Option-cases r.active_peer_id) [
    | inl e ↦ ground (arith, v.fits, contains-register peer peer, eq_iff peer peer)
    | inr (active, e) ↦
        ground
          (arith, v.fits, contains-register peer active, eq_iff peer active, eq_iff active peer)
  ]

  pub mark_authenticated-Inv : (peer : String) → Inv (mark_authenticated peer r).0
  mark_authenticated-Inv peer = record {
    known = mark_authenticated-known peer;
    named = mark_authenticated-named peer;
    active_set = mark_authenticated-active peer;
    fits = mark_authenticated-fits peer;
  }

  module _ (first_key : Sessions → Option String) (peer : String) where
    mark_disconnected-known : AllKnown (mark_disconnected first_key peer r).0.sessions
    unfolding mark_disconnected
    mark_disconnected-known j s e =
        ground (arith, AllKnown-remove peer r.sessions v.known j s, v.known j s)

    mark_disconnected-named : lookup "" (mark_disconnected first_key peer r).0.sessions ≡ none
    unfolding mark_disconnected
    mark_disconnected-named = ground (arith, v.named, lookup-remove peer "" r.sessions)

    mark_disconnected-active :
        (mark_disconnected first_key peer r).0.active_peer_id ≡ none
        → (mark_disconnected first_key peer r).0.sessions ≡ []
    unfolding mark_disconnected
    mark_disconnected-active e =
        ground (arith, v.active_set, lookup_of_empty peer r.sessions, Option-cases r.active_peer_id)

    mark_disconnected-fits :
        let q = (mark_disconnected first_key peer r).0 in
        StateFits q.state q.sessions q.active_peer_id
    unfolding mark_disconnected
    mark_disconnected-fits = elim (Option-cases r.active_peer_id) [
      | inl e ↦ ground (arith, v.fits, v.active_set, lookup_of_empty peer r.sessions)
      | inr (active, e) ↦ ground (
        arith,
        v.fits,
        lookup-remove peer active r.sessions,
        eq_iff peer active,
        eq_iff active peer,
      )
    ]

  pub select_active_peer-Inv : (peer : String) → Inv (select_active_peer peer r).0
  unfolding select_active_peer
  select_active_peer-Inv peer = ground (arith, v, lookup_of_empty peer r.sessions)

  pub toggle_controller-Inv : Inv (toggle_controller r).0
  unfolding toggle_controller
  toggle_controller-Inv = ground (arith, v)

  pub mark_controlled_by-Inv : (peer : String) → Inv (mark_controlled_by peer r).0
  unfolding mark_controlled_by
  mark_controlled_by-Inv peer = ground (arith, v)

  pub release_control-Inv : Inv (release_control r).0
  unfolding release_control
  release_control-Inv = ground (arith, v)

  pub enter_recovering-Inv : Inv (enter_recovering r)
  unfolding enter_recovering
  enter_recovering-Inv = ground (arith, v)

  pub mark_disconnected-Inv :
      (first_key : Sessions → Option String) (peer : String)
      → Inv (mark_disconnected first_key peer r).0
  mark_disconnected-Inv first_key peer = record {
    known = mark_disconnected-known first_key peer;
    named = mark_disconnected-named first_key peer;
    active_set = mark_disconnected-active first_key peer;
    fits = mark_disconnected-fits first_key peer;
  }
