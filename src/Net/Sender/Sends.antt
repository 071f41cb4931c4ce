-- ===== src/Net/Sender/Sends.antt =====
-- That the other inputs lose no motion either, with room in the channel.
use flowkey.Base.{
  ℕ, ◌+◌, subst, ◌≡◌, inl, inr, refl, ap, ◌∙◌, sym, [], ◌∷◌, Option, arith, none, some, ◌&&◌, ◌==◌,
  if◌then◌else◌, leb, Bool-cases,
}
use flowkey.Base.Int.{ℤ, pos, ◌+ℤ◌, magnitude, +ℤ-zero}
use flowkey.Base.Result.{ok, err}
use flowkey.Input.Event.{InputEvent, mouse_move, mouse_wheel, Modifiers, Modifiers_eq}
use flowkey.Net.Sender.Channel.{SessionCommand, input, SendChannel, sent}
use flowkey.Net.Sender.State.{Sender, closed, PendingScroll}
use flowkey.Net.Sender.{
  flush_move, flush_scroll, start_scroll, merge_scroll, try_input, if_delivered, queue_scroll,
  send_immediate_input, send_input,
}
use flowkey.Net.Sender.Travel.{
  Axis, event_travel, travel, travel-append, travel-single, pending_travel,
}
use flowkey.Net.Sender.Flush.{
  IsReady, total, if_delivered-true, flush_move-accepted, flush_scroll-accepted, flush_move-total,
  flush_scroll-total, flush_scroll-IsReady, flush_move-IsReady,
}
use flowkey.Net.Sender.Moves.{queue_mouse_move-total}

module _ {C : Type 0} (ch : SendChannel C)
    (room : (m : SessionCommand) (c : C) → (ch.try_send m c).1 ≡ sent) where
  -- The wheel and the other events leave the sum as it is.
  abbrev pub Kept : Axis → ℕ → Sender C → Sender C → Type 0
  Kept a b s q = (total ch a q ≡ total ch a s) × IsReady a b q

  pub flush_scroll-Kept :
      (a : Axis) (b : ℕ) (s : Sender C) → IsReady a b s → Kept a b s (flush_scroll ch s).0
  flush_scroll-Kept a b s r = (flush_scroll-total ch room a s, flush_scroll-IsReady ch room a b s r)

  pub flush_move-Kept :
      (a : Axis) (b : ℕ) (s : Sender C) → IsReady a b s → Kept a b s (flush_move ch s).0
  flush_move-Kept a b s r = (flush_move-total ch room a s, flush_move-IsReady ch room a b s r)

  start_scroll-Kept :
      (a : Axis) (dx dy : ℤ) (m : Modifiers) (t now b : ℕ) (s : Sender C)
      → IsReady a b s
      → Kept a b s (start_scroll ch dx dy m t now s)
  unfolding start_scroll total
  start_scroll-Kept a dx dy m t now b s r =
      (refl, record { is_open = r.is_open; running = r.running; small = r.small })

  merge_scroll-Kept :
      (a : Axis) (o : Option PendingScroll) (dx dy : ℤ) (m : Modifiers) (t now b : ℕ) (s : Sender C)
      → IsReady a b s
      → Kept a b s (merge_scroll ch o dx dy m t now s).0
  unfolding merge_scroll
  merge_scroll-Kept a none dx dy m t now b s r = start_scroll-Kept a dx dy m t now b s r
  merge_scroll-Kept a (some p) dx dy m t now b s r =
      elim (Bool-cases (p.modifiers == m && leb now p.deadline)) [
        | inl joins ↦ rw joins (
          unfold total in refl,
          record { is_open = r.is_open; running = r.running; small = r.small },
        )
        | inr starts ↦
            let s' = (flush_scroll ch s).0 in
            let (same, ready) = flush_scroll-Kept a b s r in
            let (same', ready') = start_scroll-Kept a dx dy m t now b s' ready in
            rw
              (
                starts,
                if_delivered-true ch (flush_scroll ch s)
                    (λ s'. (start_scroll ch dx dy m t now s', ok tt))
                    (flush_scroll-accepted ch room s).0,
              )
              (same' ∙ same, ready')
      ]

  try_input-Kept :
      (a : Axis) (e : InputEvent) (b : ℕ) (s : Sender C)
      → event_travel a e ≡ pos 0
      → IsReady a b s
      → Kept a b s (try_input ch e s).0
  unfolding try_input
  try_input-Kept a e b s still r = rw (room (input e) s.channel) (
    unfold total in ap (λ d. d +ℤ pending_travel a s.pending_move) still_there,
    record { is_open = r.is_open; running = r.running; small = r.small },
  )
    where
      still_there :
          travel a (ch.accepted (ch.try_send (input e) s.channel).0)
          ≡ travel a (ch.accepted s.channel)
      still_there =
          ap (travel a) (ch.try_send-sent (input e) s.channel (room (input e) s.channel))
          ∙ travel-append a (ch.accepted s.channel) (input e ∷ [])
          ∙ ap (λ d. travel a (ch.accepted s.channel) +ℤ d) (travel-single a (input e) ∙ still)
          ∙ +ℤ-zero (travel a (ch.accepted s.channel))

  queue_scroll-Kept :
      (a : Axis) (dx dy : ℤ) (m : Modifiers) (t now b : ℕ) (s : Sender C)
      → IsReady a b s
      → Kept a b s (queue_scroll ch dx dy m t now s).0
  queue_scroll-Kept a dx dy m t now b s r =
      let s' = (flush_move ch s).0 in
      let (same, ready) = flush_move-Kept a b s r in
      let (same', ready') = merge_scroll-Kept a s'.pending_scroll dx dy m t now b s' ready in
      subst (λ q. Kept a b s q.0) (sym opened) (same' ∙ same, ready')
    where
      opened :
          queue_scroll ch dx dy m t now s
          ≡ merge_scroll ch (flush_move ch s).0.pending_scroll dx dy m t now (flush_move ch s).0
      opened =
          let next = λ (q : Sender C). merge_scroll ch q.pending_scroll dx dy m t now q in
          unfold queue_scroll in
          ap (λ c. if c then (s, err closed) else if_delivered ch (flush_move ch s) next) r.is_open
          ∙ if_delivered-true ch (flush_move ch s) next (flush_move-accepted ch room s).0

  send_immediate-Kept :
      (a : Axis) (e : InputEvent) (b : ℕ) (s : Sender C)
      → event_travel a e ≡ pos 0
      → IsReady a b s
      → Kept a b s (send_immediate_input ch e s).0
  send_immediate-Kept a e b s still r =
      let s1 = (flush_move ch s).0 in
      let (same1, ready1) = flush_move-Kept a b s r in
      let s2 = (flush_scroll ch s1).0 in
      let (same2, ready2) = flush_scroll-Kept a b s1 ready1 in
      let (same3, ready3) = try_input-Kept a e b s2 still ready2 in
      subst (λ q. Kept a b s q.0) (sym opened) (same3 ∙ same2 ∙ same1, ready3)
    where
      opened : send_immediate_input ch e s ≡ try_input ch e (flush_scroll ch (flush_move ch s).0).0
      opened =
          let next = λ (q : Sender C). if_delivered ch (flush_scroll ch q) (try_input ch e) in
          unfold send_immediate_input in
          ap (λ c. if c then (s, err closed) else if_delivered ch (flush_move ch s) next) r.is_open
          ∙ if_delivered-true ch (flush_move ch s) next (flush_move-accepted ch room s).0
          ∙ if_delivered-true ch (flush_scroll ch (flush_move ch s).0) (try_input ch e)
              (flush_scroll-accepted ch room (flush_move ch s).0).0

  -- An event that moves nothing.
  pub still-total :
      (a : Axis) (b : ℕ) (s q : Sender C)
      → (IsReady a b s → Kept a b s q)
      → IsReady a (magnitude (pos 0) + b) s
      → (total ch a q ≡ total ch a s +ℤ pos 0) × IsReady a b q
  still-total a b s q kept r =
      let (same, ready) =
        kept
          (record { is_open = r.is_open; running = r.running; small = omega (arith, r.small) }) in
      (same ∙ sym (+ℤ-zero (total ch a s)), ready)

  pub send_input-total :
      (a : Axis) (e : InputEvent) (now b : ℕ) (s : Sender C)
      → IsReady a (magnitude (event_travel a e) + b) s
      → let q = (send_input ch e now s).0 in
        (total ch a q ≡ total ch a s +ℤ event_travel a e) × IsReady a b q
  unfolding send_input
  send_input-total a (mouse_move dx dy m t) now b s r =
      queue_mouse_move-total ch room a dx dy m t now b s r
  send_input-total a (mouse_wheel dx dy m t) now b s r =
      still-total a b s (queue_scroll ch dx dy m t now s).0 (queue_scroll-Kept a dx dy m t now b s)
        r
  send_input-total a e now b s r =
      still-total a b s (send_immediate_input ch e s).0 (send_immediate-Kept a e b s refl) r
