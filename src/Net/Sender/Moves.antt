-- ===== src/Net/Sender/Moves.antt =====
-- That merging a mouse move loses no motion, with room in the channel.
use flowkey.Base.{
  ℕ, ◌+◌, ◌≤◌, subst, false, ◌≡◌, inl, inr, refl, ap, ◌∙◌, sym, Option, arith, none, some, ◌&&◌,
  ◌==◌, if◌then◌else◌, leb, Bool-cases,
}
use flowkey.Base.Int.{
  ℤ, ◌+ℤ◌, magnitude, saturating_add, saturating_add-exact, magnitude-+ℤ, +ℤ_assoc, +ℤ-zero,
  i32_max,
}
use flowkey.Base.Result.{ok, err}
use flowkey.Input.Event.{Modifiers, Modifiers_eq}
use flowkey.Net.Sender.Channel.{SessionCommand, SendChannel, sent}
use flowkey.Net.Sender.State.{Sender, closed, PendingMouseMove}
use flowkey.Net.Sender.{
  flush_move, flush_scroll, start_move, merge_move, if_delivered, queue_mouse_move,
}
use flowkey.Net.Sender.Travel.{horizontal, vertical, Axis, along, travel, pending_travel}
use flowkey.Net.Sender.Flush.{
  IsReady, total, if_delivered-true, flush_move-accepted, flush_scroll-accepted, flush_move-total,
  flush_scroll-total, flush_scroll-IsReady, flush_move-IsReady,
}

module _ {C : Type 0} (ch : SendChannel C)
    (room : (m : SessionCommand) (c : C) → (ch.try_send m c).1 ≡ sent) where
  start_move-total :
      (a : Axis) (dx dy : ℤ) (m : Modifiers) (t now : ℕ) (s : Sender C)
      → s.pending_move ≡ none
      → total ch a (start_move ch dx dy m t now s) ≡ total ch a s +ℤ along a dx dy
  unfolding total start_move
  start_move-total horizontal dx dy m t now s e =
      rw e (ap (λ x. x +ℤ dx) (sym (+ℤ-zero (travel horizontal (ch.accepted s.channel)))))
  start_move-total vertical dx dy m t now s e =
      rw e (ap (λ x. x +ℤ dy) (sym (+ℤ-zero (travel vertical (ch.accepted s.channel)))))

  merge-exact :
      (a : Axis) (p : PendingMouseMove) (dx dy : ℤ) (t : ℕ)
      → magnitude (along a p.dx p.dy) + magnitude (along a dx dy) ≤ i32_max
      → along a (saturating_add p.dx dx) (saturating_add p.dy dy)
        ≡ along a p.dx p.dy +ℤ along a dx dy
  merge-exact horizontal p dx dy t h = saturating_add-exact p.dx dx h
  merge-exact vertical p dx dy t h = saturating_add-exact p.dy dy h

  start_move-IsReady :
      (a : Axis) (dx dy : ℤ) (m : Modifiers) (t now b : ℕ) (s : Sender C)
      → IsReady a (magnitude (along a dx dy) + b) s
      → IsReady a b (start_move ch dx dy m t now s)
  unfolding start_move
  start_move-IsReady horizontal dx dy m t now b s r = record {
    is_open = r.is_open;
    running = r.running;
    small = omega (arith, r.small);
  }
  start_move-IsReady vertical dx dy m t now b s r = record {
    is_open = r.is_open;
    running = r.running;
    small = omega (arith, r.small);
  }

  abbrev merged : PendingMouseMove → ℤ → ℤ → ℕ → Sender C → Sender C
  merged p dx dy t s = record s {
    pending_move =
        some
          (record p { dx = saturating_add p.dx dx; dy = saturating_add p.dy dy; timestamp_us = t });
  }

  merged-total :
      (a : Axis) (p : PendingMouseMove) (dx dy : ℤ) (t b : ℕ) (s : Sender C)
      → s.pending_move ≡ some p
      → IsReady a (magnitude (along a dx dy) + b) s
      → (total ch a (merged p dx dy t s) ≡ total ch a s +ℤ along a dx dy)
        × IsReady a b (merged p dx dy t s)
  unfolding total
  merged-total a p dx dy t b s e r = (
    ap (λ d. travel a (ch.accepted s.channel) +ℤ d) exact
        ∙ sym (+ℤ_assoc (travel a (ch.accepted s.channel)) (along a p.dx p.dy) (along a dx dy))
        ∙ ap (λ o. travel a (ch.accepted s.channel) +ℤ pending_travel a o +ℤ along a dx dy) (sym e),
    record {
      is_open = r.is_open;
      running = r.running;
      small =
          subst (λ d. magnitude d + b ≤ i32_max) (sym exact)
            (omega (arith, magnitude-+ℤ (along a p.dx p.dy) (along a dx dy), fits));
    },
  )
    where
      fits : magnitude (along a p.dx p.dy) + (magnitude (along a dx dy) + b) ≤ i32_max
      fits =
          subst (λ o. magnitude (pending_travel a o) + (magnitude (along a dx dy) + b) ≤ i32_max) e
            r.small

      exact :
          along a (saturating_add p.dx dx) (saturating_add p.dy dy)
          ≡ along a p.dx p.dy +ℤ along a dx dy
      exact = merge-exact a p dx dy t (omega (arith, fits))

  merge_move-total :
      (a : Axis) (o : Option PendingMouseMove) (dx dy : ℤ) (m : Modifiers) (t now b : ℕ)
      (s : Sender C)
      → s.pending_move ≡ o
      → IsReady a (magnitude (along a dx dy) + b) s
      → let q = (merge_move ch o dx dy m t now s).0 in
        (total ch a q ≡ total ch a s +ℤ along a dx dy) × IsReady a b q
  unfolding merge_move
  merge_move-total a none dx dy m t now b s e r =
      (start_move-total a dx dy m t now s e, start_move-IsReady a dx dy m t now b s r)
  merge_move-total a (some p) dx dy m t now b s e r =
      elim (Bool-cases (p.modifiers == m && leb now p.deadline)) [
        | inl joins ↦ rw joins (merged-total a p dx dy t b s e r)
        | inr starts ↦
            let f = flush_move-accepted ch room s in
            let s' = (flush_move ch s).0 in
            rw
              (
                starts,
                if_delivered-true ch (flush_move ch s)
                    (λ s'. (start_move ch dx dy m t now s', ok tt)) f.0,
              )
              (
                start_move-total a dx dy m t now s' f.2
                    ∙ ap (λ d. d +ℤ along a dx dy) (flush_move-total ch room a s),
                start_move-IsReady a dx dy m t now b s'
                    (flush_move-IsReady ch room a (magnitude (along a dx dy) + b) s r),
              )
      ]

  queue_mouse_move-open :
      (dx dy : ℤ) (m : Modifiers) (t now : ℕ) (s : Sender C)
      → s.channel_closed ≡ false
      → let s' = (flush_scroll ch s).0 in
        queue_mouse_move ch dx dy m t now s ≡ merge_move ch s'.pending_move dx dy m t now s'
  unfolding queue_mouse_move
  queue_mouse_move-open dx dy m t now s h =
      let next = λ (q : Sender C). merge_move ch q.pending_move dx dy m t now q in
      ap (λ c. if c then (s, err closed) else if_delivered ch (flush_scroll ch s) next) h
      ∙ if_delivered-true ch (flush_scroll ch s) next (flush_scroll-accepted ch room s).0

  pub queue_mouse_move-total :
      (a : Axis) (dx dy : ℤ) (m : Modifiers) (t now b : ℕ) (s : Sender C)
      → IsReady a (magnitude (along a dx dy) + b) s
      → let q = (queue_mouse_move ch dx dy m t now s).0 in
        (total ch a q ≡ total ch a s +ℤ along a dx dy) × IsReady a b q
  queue_mouse_move-total a dx dy m t now b s r =
      let s' = (flush_scroll ch s).0 in
      let (same, kept) =
        merge_move-total a s'.pending_move dx dy m t now b s' refl
          (flush_scroll-IsReady ch room a (magnitude (along a dx dy) + b) s r) in
      subst (λ q. (total ch a q.0 ≡ total ch a s +ℤ along a dx dy) × IsReady a b q.0)
        (sym (queue_mouse_move-open dx dy m t now s r.is_open))
        (same ∙ ap (λ d. d +ℤ along a dx dy) (flush_scroll-total ch room a s), kept)
