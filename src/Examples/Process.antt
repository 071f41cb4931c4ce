-- ===== src/Examples/Process.antt =====
-- One daemon process with the peers "a" and "b".
use flowkey.Base.{
  is_some, String, true, false, none, some, List, [], ◌∷◌, ◌≡◌, refl, ◌==◌, String_eq,
  if◌then◌else◌,
}
use flowkey.Base.Assoc.{lookup, insert}
use flowkey.Base.Result.{ok, err}
use flowkey.Core.Daemon.{
  connected_idle, controlling, controlled_by, recovering, Role, authenticated_session,
  is_authenticated, contains_key, new_runtime, mark_authenticated, toggle_controller,
  active_must_be_authenticated,
}
use flowkey.Core.Recovery.{no_held}
use flowkey.Core.Status.{from_runtime}
use flowkey.Input.Event.{InputEvent}
use flowkey.Net.Sender.Channel.{SessionCommand, switch_control}
use flowkey.Net.Sender.State.{new_sender}
use flowkey.Net.Sender.{send_control_command}
use flowkey.Process.State.{
  Daemon, new_daemon, send_switch, send_releases, publish_status_snapshot, notify_peer_switch,
}
use flowkey.Process.Control.{switch, handle_control_command}
use flowkey.Process.Notes.{push_runtime_note}
use flowkey.Process.Sessions.{
  setup_session, cleanup_session, authenticate, remove_sender, disconnect, start_sender,
  on_remote_switch,
}
use flowkey.Process.Capture.{on_hotkey_pressed}
use flowkey.Process.Events.{Event, begins, hotkey, Setting, step, run}
use flowkey.Process.Invariant.{process-Inv}
use flowkey.Process.Switch.{let_go, previous_peer}
use flowkey.Process.Handover.{sent_to, is_left, switch_hands_over, failed_switch_strands}
use flowkey.Process.Overlaps.{late_end_strands_sender, late_resume_strands}
use flowkey.Process.Hazards.{newcomer_strands, other_end_unsuppresses, end_takes_all}
use flowkey.Examples.Sender.{roomy}
use flowkey.Examples.Daemon.{first_of, differ}
use flowkey.Examples.Session.{keeping}

abbrev Commands : Type 0
Commands = List SessionCommand

abbrev same_order : List String → List String
same_order ids = ids

abbrev setting : Setting Commands (List InputEvent)
setting = record {
  sort = same_order;
  channels = roomy;
  sinks = keeping;
  first_key = first_of;
  window = 2;
  backend = "logging";
  note = some "platform input injection is not available on this OS";
  accept_remote_control = true;
}

-- The peer "a" comes and is controlled.
abbrev controls_a : List (Event Commands (List InputEvent))
controls_a = begins "a" [] "r1" ∷ hotkey "r2" ∷ []

abbrev after : List (Event Commands (List InputEvent)) → Daemon Commands
after es = run setting es (new_daemon same_order)

-- What holds of the process then.
controls_a_facts :
    ((after controls_a).runtime.state ≡ controlling "a")
    × ((after controls_a).runtime.active_peer_id ≡ some "a")
    × ((after controls_a).suppression_state ≡ true)
    × (contains_key "a" (after controls_a).runtime.sessions ≡ true)
    × (contains_key "b" (after controls_a).runtime.sessions ≡ false)
unfolding run step new_daemon setup_session on_hotkey_pressed new_runtime mark_authenticated
    toggle_controller lookup insert push_runtime_note publish_status_snapshot notify_peer_switch
    send_control_command
controls_a_facts = (refl, refl, refl, refl, refl)

switch_hands_over_example :
    let (q, result) =
      handle_control_command same_order roomy (switch "a") "r3" "r4" (after controls_a) in
    (result ≡ ok tt)
    × (q.runtime
        ≡ record (after controls_a).runtime { state = controlling "a"; active_peer_id = some "a" })
    × (q.suppression_state ≡ true)
    × (q.status_snapshot ≡ from_runtime same_order q.runtime)
    × ((asked : String)
        → lookup asked q.session_senders ≡ (
            if "a" == asked
            then sent_to (send_switch roomy "r4") (lookup asked (after controls_a).session_senders)
            else if is_left (previous_peer (after controls_a).runtime) "a" asked
            then sent_to
                (send_releases roomy "r3")
                (lookup asked (after controls_a).session_senders)
            else lookup asked (after controls_a).session_senders))
switch_hands_over_example =
    let (_, _, _, known, _) = controls_a_facts in
    switch_hands_over same_order roomy "a" "r3" "r4" (after controls_a)
      (process-Inv setting controls_a) known

failed_switch_strands_example :
    handle_control_command same_order roomy (switch "b") "r3" "r4" (after controls_a) ≡ (
      record (after controls_a) {
        runtime = record (after controls_a).runtime {
          state = let_go (after controls_a).runtime.state;
        };
      },
      err active_must_be_authenticated,
    )
failed_switch_strands_example =
    let (_, _, _, _, unknown) = controls_a_facts in
    failed_switch_strands same_order roomy "b" "r3" "r4" (after controls_a)
      (process-Inv setting controls_a) unknown

newcomer_strands_example :
    let q = setup_session same_order roomy "b" [] 2 "r3" "logging" none (after controls_a) in
    (q.runtime.state ≡ connected_idle)
    × (q.runtime.active_peer_id ≡ some "a")
    × (q.suppression_state ≡ true)
    × (lookup "a" q.session_senders ≡ lookup "a" (after controls_a).session_senders)
newcomer_strands_example =
    let (state, active, suppressed, _, unknown) = controls_a_facts in
    newcomer_strands same_order roomy "b" "a" [] 2 "r3" "logging" none (after controls_a) state
      active suppressed (differ "b" "" refl) (differ "b" "a" refl) unknown

other_end_unsuppresses_example :
    let q = (cleanup_session same_order first_of keeping "b" no_held [] (after controls_a)).0 in
    (q.runtime.state ≡ controlling "a") × (q.suppression_state ≡ false)
other_end_unsuppresses_example =
    other_end_unsuppresses same_order first_of keeping no_held [] (after controls_a) "b" "a"
      (process-Inv setting controls_a) controls_a_facts.0 (differ "b" "a" refl)

end_takes_all_example :
    let q = (cleanup_session same_order first_of keeping "a" no_held [] (after controls_a)).0 in
    (contains_key "a" q.runtime.sessions ≡ false) × (lookup "a" q.session_senders ≡ none)
end_takes_all_example =
    end_takes_all same_order first_of keeping no_held [] (after controls_a) "a" (differ "a" "" refl)

late_end_strands_sender_example :
    let back =
      setup_session same_order roomy "a" [] 2 "r3" "logging" none
        (remove_sender "a" (after controls_a)) in
    let q = disconnect first_of "a" back in
    (is_some (lookup "a" q.session_senders) ≡ true) × (contains_key "a" q.runtime.sessions ≡ false)
late_end_strands_sender_example =
    late_end_strands_sender same_order roomy first_of "a" [] 2 "r3" "logging" none
      (after controls_a) (differ "a" "" refl)

-- The peer "a" was controlled and is lost, and "b" is there.
abbrev lost_a : Daemon Commands
lost_a = record (new_daemon same_order) {
  runtime = record new_runtime {
    state = recovering (some Role.controlling);
    active_peer_id = some "a";
    sessions = ("b", authenticated_session "b") ∷ [];
  };
}

lost_a_facts :
    (is_authenticated (lookup "b" lost_a.runtime.sessions) ≡ true)
    × ((authenticate "a" lost_a).1 ≡ some Role.controlling)
    × ((send_control_command roomy (switch_control "r3") (new_sender [] 2)).1 ≡ ok tt)
unfolding lookup new_daemon new_runtime mark_authenticated send_control_command new_sender
lost_a_facts = (refl, refl, refl)

late_resume_strands_example :
    let taken = on_remote_switch same_order true "b" (authenticate "a" lost_a).0 in
    let q = (start_sender roomy (authenticate "a" lost_a).1 "r3" taken (new_sender [] 2)).0 in
    (taken.runtime.state ≡ controlled_by "b")
    × (q.runtime.state ≡ connected_idle)
    × (q.suppression_state ≡ true)
late_resume_strands_example =
    let (known, role, sent) = lost_a_facts in
    late_resume_strands same_order roomy "a" "b" "r3" [] 2 lost_a (differ "b" "" refl)
      (differ "b" "a" refl) known role sent
