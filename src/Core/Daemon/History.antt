-- ===== src/Core/Daemon/History.antt =====
-- The sessions of a runtime against its history: who is connected is decided by the last time that
-- a peer came or went, whatever the other calls did.
use flowkey.Base.{
  String, Bool, false, not, Option, List, [], ◌∷◌, ◌≡◌, refl, ◌∙◌, ap, ◌&&◌, ◌||◌, arith, eq_iff,
  ◌==◌, String_eq,
}
use flowkey.Base.Assoc.{lookup, lookup-insert, lookup-remove}
use flowkey.Core.Daemon.{
  authenticated_session, Sessions, DaemonRuntime, contains_key, new_runtime, mark_authenticated,
  mark_disconnected, select_active_peer, toggle_controller, mark_controlled_by, release_control,
  enter_recovering,
}
use flowkey.Core.Daemon.Calls.{
  Call, authenticates, disconnects, selects, controlled_from, toggles, releases, recovers,
  no_role-fst, call, run,
}

-- Is the peer connected after the call, given whether it was before it?
connected_after : String → Call → Bool → Bool
connected_after peer (authenticates p) before = before || (p == peer && not (p == ""))
connected_after peer (disconnects p) before = before && (p == "" || not (p == peer))
connected_after peer _ before = before

pub is_connected : String → List Call → Bool → Bool
is_connected peer [] before = before
is_connected peer (c ∷ cs) before = is_connected peer cs (connected_after peer c before)

contains-authenticates :
    (peer p : String) (r : DaemonRuntime)
    → contains_key peer (mark_authenticated p r).0.sessions
      ≡ (contains_key peer r.sessions || (p == peer && not (p == "")))
unfolding mark_authenticated
contains-authenticates peer p r =
    ground
      (arith, lookup-insert p peer (authenticated_session p) r.sessions, eq_iff p peer, eq_iff p "")

module _ (first_key : Sessions → Option String) where
  pub contains-disconnects :
      (peer p : String) (r : DaemonRuntime)
      → contains_key peer (mark_disconnected first_key p r).0.sessions
        ≡ (contains_key peer r.sessions && (p == "" || not (p == peer)))
  unfolding mark_disconnected
  contains-disconnects peer p r =
      ground (arith, lookup-remove p peer r.sessions, eq_iff p peer, eq_iff p "")

  contains-call :
      (peer : String) (c : Call) (r : DaemonRuntime)
      → contains_key peer (call first_key c r).0.sessions
        ≡ connected_after peer c (contains_key peer r.sessions)
  unfolding call connected_after
  contains-call peer (authenticates p) r = contains-authenticates peer p r
  contains-call peer (disconnects p) r = rw no_role-fst (contains-disconnects peer p r)
  contains-call peer (selects p) r = unfold select_active_peer in ground arith
  contains-call peer (controlled_from p) r = unfold mark_controlled_by in ground arith
  contains-call peer toggles r = unfold toggle_controller in ground arith
  contains-call peer releases r = unfold release_control in ground arith
  contains-call peer recovers r = unfold enter_recovering in ground arith

  run_from-is_connected :
      (peer : String) (cs : List Call) (r : DaemonRuntime)
      → contains_key peer (run first_key cs r).sessions
        ≡ is_connected peer cs (contains_key peer r.sessions)
  unfolding run is_connected
  run_from-is_connected peer [] r = refl
  run_from-is_connected peer (c ∷ cs) r =
      run_from-is_connected peer cs (call first_key c r).0
      ∙ ap (is_connected peer cs) (contains-call peer c r)

  -- After any history of calls a peer has a session exactly if its last successful coming was not
  -- followed by a going: authenticating it (under a name that is not empty) connects it,
  -- disconnecting it does the opposite, and no other call matters.
  pub run-is_connected :
      (peer : String) (cs : List Call)
      → contains_key peer (run first_key cs new_runtime).sessions ≡ is_connected peer cs false
  run-is_connected peer cs =
      run_from-is_connected peer cs new_runtime
      ∙ ap (is_connected peer cs) (unfold new_runtime lookup in refl)
