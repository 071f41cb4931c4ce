-- ===== src/Examples/Daemon.antt =====
-- Histories of one daemon with the peers "a" and "b".
use flowkey.Base.{
  String, Option, none, some, List, [], ◌∷◌, ◌≡◌, ◌≢◌, refl, false, arith, ◌==◌, String_eq, eq_iff,
}
use flowkey.Base.Assoc.{lookup, insert, remove}
use flowkey.Base.Result.{ok}
use flowkey.Core.Daemon.{
  connected_idle, controlling, recovering, Role, Sessions, DaemonRuntime, contains_key, new_runtime,
  mark_authenticated, mark_disconnected, toggle_controller,
}
use flowkey.Core.Daemon.Invariant.{Inv}
use flowkey.Core.Daemon.Calls.{Call, authenticates, disconnects, toggles, call, run, run-Inv}
use flowkey.Core.Daemon.History.{is_connected, run-is_connected}
use flowkey.Core.Daemon.Resume.{resume_restores_role}

abbrev pub first_of : Sessions → Option String
first_of [] = none
first_of ((peer, _) ∷ _) = some peer

pub differ : (a b : String) → (a == b) ≡ false → a ≢ b
differ a b h = ground (arith, eq_iff a b)

-- Both peers come, and the daemon takes control of the first.
abbrev both : List Call
both = authenticates "a" ∷ authenticates "b" ∷ toggles ∷ []

abbrev one_peer : List Call
one_peer = authenticates "a" ∷ toggles ∷ []

abbrev after : List Call → DaemonRuntime
after cs = run first_of cs new_runtime

run-Inv_example : Inv (after both)
run-Inv_example = run-Inv first_of both

run-is_connected_example :
    contains_key "a" (after (authenticates "a" ∷ disconnects "a" ∷ [])).sessions
    ≡ is_connected "a" (authenticates "a" ∷ disconnects "a" ∷ []) false
run-is_connected_example = run-is_connected first_of "a" (authenticates "a" ∷ disconnects "a" ∷ [])

both_controls : (after both).state ≡ controlling "a"
unfolding call run new_runtime mark_authenticated toggle_controller lookup insert
both_controls = refl

resume_restores_role_example :
    let lost = (mark_disconnected first_of "a" (after both)).0 in
    (lost.state ≡ recovering (some Role.controlling))
    × (lost.active_peer_id ≡ some "a")
    × ((mark_authenticated "a" lost).1 ≡ ok (some Role.controlling))
    × ((mark_authenticated "a" lost).0.state ≡ connected_idle)
    × ((mark_authenticated "a" lost).0.active_peer_id ≡ some "a")
resume_restores_role_example =
    resume_restores_role first_of (after both) (run-Inv first_of both) "a" Role.controlling "b"
      both_controls (differ "a" "b" refl)
      (unfold call run new_runtime mark_authenticated toggle_controller lookup insert remove in
        refl)
