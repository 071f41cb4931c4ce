-- ===== src/Examples/Sender.antt =====
-- A sender whose channel has room for everything, and one whose receiver is gone.
use flowkey.Base.{◌⊎◌, true, false, none, List, [], ◌∷◌, ◌++◌, ◌≡◌, refl, arith}
use flowkey.Base.Int.{pos, negsuc, ◌+ℤ◌}
use flowkey.Base.Result.{ok, err}
use flowkey.Input.Event.{InputEvent, no_modifiers, left, mouse_move, mouse_wheel, mouse_button_down}
use flowkey.Net.Sender.Channel.{SessionCommand, SendChannel, sent, switch_control, release_all}
use flowkey.Net.Sender.State.{Sender, closed, earliest_deadline, new_sender}
use flowkey.Net.Sender.{send_input, send_control_command}
use flowkey.Net.Sender.Worker.{worker_pass, drop_receiver}
use flowkey.Net.Sender.Closed.{
  Op, sends, controls, passes, hangs_up, clones, step, run, failure_final,
}
use flowkey.Net.Sender.Kept.{InOrder, Joined, sent-InOrder}
use flowkey.Net.Sender.Order.{control_discards_pending}
use flowkey.Net.Sender.Travel.{horizontal, travel, pending_travel, travel_of, way_of}
use flowkey.Net.Sender.Motion.{motion_conserved}

pub never_refused : (m : SessionCommand) (c : List SessionCommand) → true ≡ false → c ++ m ∷ [] ≡ c
never_refused m c h = absurd (ground arith)

-- A channel that takes every command.
abbrev pub roomy : SendChannel (List SessionCommand)
roomy = record {
  try_send = λ m c. (c ++ m ∷ [], sent);
  send = λ m c. (c ++ m ∷ [], true);
  accepted = λ c. c;
  try_send-sent = λ m c h. refl;
  try_send-refused = λ m c h. absurd (h refl);
  send-sent = λ m c h. refl;
  send-refused = never_refused;
}

-- Two moves that merge, a scroll, a pass of the worker and another move.
abbrev motion : List Op
motion =
    sends (mouse_move (pos 3) (negsuc 1) no_modifiers 1) 100
    ∷ sends (mouse_move (pos 4) (pos 5) no_modifiers 2) 101
    ∷ sends (mouse_wheel (pos 0) (pos 1) no_modifiers 3) 102
    ∷ passes true 106 106
    ∷ sends (mouse_move (pos 6) (pos 0) no_modifiers 4) 107
    ∷ []

abbrev pushed : InputEvent
pushed = mouse_button_down left no_modifiers 5

pushed_taken : (send_input roomy pushed 108 (run roomy motion (new_sender [] 2))).1 ≡ ok tt
unfolding send_input run step new_sender send_control_command worker_pass earliest_deadline
pushed_taken = refl

sent-InOrder_example :
    let s = run roomy motion (new_sender [] 2) in
    InOrder roomy pushed s (send_input roomy pushed 108 s).0
    ⊎ Joined roomy pushed s (send_input roomy pushed 108 s).0
sent-InOrder_example = sent-InOrder roomy [] 2 motion pushed 108 pushed_taken

motion_conserved_example :
    let q = run roomy motion (new_sender [] 2) in
    travel horizontal (roomy.accepted q.channel) +ℤ pending_travel horizontal q.pending_move
    ≡ travel_of horizontal motion
motion_conserved_example =
    motion_conserved roomy (λ m c. refl) horizontal [] 2 motion refl
      (tt, (tt, (tt, (tt, (tt, tt))))) (unfold way_of in omega arith)

-- A move is pending when control is handed over.
abbrev moving : Sender (List SessionCommand)
moving = run roomy (sends (mouse_move (pos 3) (negsuc 1) no_modifiers 1) 100 ∷ []) (new_sender [] 2)

control_discards_pending_example :
    let q = (send_control_command roomy (switch_control "r") moving).0 in
    (q.pending_move ≡ none)
    × (q.pending_scroll ≡ none)
    × (roomy.accepted q.channel ≡ roomy.accepted moving.channel ++ switch_control "r" ∷ [])
control_discards_pending_example =
    control_discards_pending roomy (switch_control "r") moving
      (unfold run step send_input send_control_command new_sender drop_receiver in refl)

failure_final_example :
    let q =
      run roomy
        (clones ∷ [])
        (step roomy (controls (switch_control "r")) (step roomy hangs_up (new_sender [] 2))) in
    (send_input roomy (mouse_button_down left no_modifiers 9) 200 q ≡ (q, err closed))
    × (send_control_command roomy release_all q ≡ (q, err closed))
failure_final_example =
    failure_final roomy (controls (switch_control "r")) (step roomy hangs_up (new_sender [] 2))
      (clones ∷ []) (mouse_button_down left no_modifiers 9) 200 release_all
      (unfold step send_control_command new_sender drop_receiver in refl)
