-- ===== src/Net/Sender/Motion.antt =====
-- That merging loses no motion while the receiver of the channel keeps up, so that every `try_send`
-- finds room.
use flowkey.Base.{
  ℕ, All, ◌+◌, ◌≤◌, subst, Bool, true, false, ◌≡◌, inl, inr, refl, ap, ◌∙◌, sym, List, [], ◌∷◌,
  arith, ◌&&◌, Bool-cases,
}
use flowkey.Base.Int.{pos, ◌+ℤ◌, magnitude, +ℤ_assoc, +ℤ-zero, i32_max}
use flowkey.Input.Event.{Modifiers_eq}
use flowkey.Net.Sender.Channel.{SessionCommand, SendChannel, sent}
use flowkey.Net.Sender.State.{Sender, new_sender, move_due, scroll_due, earliest_deadline, is_early}
use flowkey.Net.Sender.{flush_move, flush_scroll}
use flowkey.Net.Sender.Worker.{worker_pass, flush_due, flush_due_scroll, flushed, again}
use flowkey.Net.Sender.Closed.{Op, sends, passes, step, run}
use flowkey.Net.Sender.Travel.{
  Axis, travel, from_nothing, op_travel, travel_of, way_of, pending_travel,
}
use flowkey.Net.Sender.Flush.{
  IsReady, total, flushed-true, flush_move-accepted, flush_scroll-accepted,
}
use flowkey.Net.Sender.Sends.{
  Kept, flush_scroll-Kept, flush_move-Kept, still-total, send_input-total,
}

module _ {C : Type 0} (ch : SendChannel C)
    (room : (m : SessionCommand) (c : C) → (ch.try_send m c).1 ≡ sent) where
  flushed_scroll-Kept :
      (a : Axis) (now b : ℕ) (s : Sender C)
      → IsReady a b s
      → Kept ch room a b s (flush_due_scroll ch now (s, again)).0
  unfolding flush_due_scroll flushed
  flushed_scroll-Kept a now b s r = elim (Bool-cases (scroll_due now s.pending_scroll)) [
    | inl due ↦
        rw (due, flushed-true ch (flush_scroll ch s) (flush_scroll-accepted ch room s).0)
          (flush_scroll-Kept ch room a b s r)
    | inr early ↦ rw early (refl, r)
  ]

  flush_due-Kept :
      (a : Axis) (now b : ℕ) (s : Sender C)
      → IsReady a b s
      → Kept ch room a b s (flush_due ch now s).0
  unfolding flush_due
  flush_due-Kept a now b s r = elim (Bool-cases (move_due now s.pending_move)) [
    | inl due ↦
        let (same, ready) = flush_move-Kept ch room a b s r in
        let (same', ready') = flushed_scroll-Kept a now b (flush_move ch s).0 ready in
        rw (due, flushed-true ch (flush_move ch s) (flush_move-accepted ch room s).0)
          (same' ∙ same, ready')
    | inr early ↦ rw early (flushed_scroll-Kept a now b s r)
  ]

  worker_pass-Kept :
      (a : Axis) (slept : Bool) (woken now b : ℕ) (s : Sender C)
      → IsReady a b s
      → Kept ch room a b s (worker_pass ch slept woken now s).0
  worker_pass-Kept a slept woken now b s r =
      elim (Bool-cases
        (slept && is_early woken (earliest_deadline s.pending_move s.pending_scroll))) [
          | inl early ↦ subst (λ q. Kept ch room a b s q.0) (sym (waits early)) (refl, r)
          | inr due ↦
              subst (λ q. Kept ch room a b s q.0) (sym (flushes due)) (flush_due-Kept a now b s r)
        ]
    where
      waits :
          (slept && is_early woken (earliest_deadline s.pending_move s.pending_scroll)) ≡ true
          → worker_pass ch slept woken now s ≡ (s, again)
      waits early = unfold worker_pass in ground (arith, r.is_open, r.running)

      flushes :
          (slept && is_early woken (earliest_deadline s.pending_move s.pending_scroll)) ≡ false
          → worker_pass ch slept woken now s ≡ flush_due ch now s
      flushes due = unfold worker_pass in ground (arith, r.is_open, r.running)

  -- Inputs and passes of the worker, nothing else.
  abbrev pub IsInput : Op → Type 0
  IsInput (sends e now) = Unit {0}
  IsInput (passes slept woken now) = Unit {0}
  IsInput _ = ⊥

  step-total :
      (a : Axis) (o : Op) (b : ℕ) (s : Sender C)
      → IsInput o
      → IsReady a (magnitude (op_travel a o) + b) s
      → (total ch a (step ch o s) ≡ total ch a s +ℤ op_travel a o) × IsReady a b (step ch o s)
  unfolding step
  step-total a (sends e now) b s i r = send_input-total ch room a e now b s r
  step-total a (passes slept woken now) b s i r =
      still-total ch room a b s (worker_pass ch slept woken now s).0
        (worker_pass-Kept a slept woken now b s) r
  step-total a _ b s i r = absurd i

  run-total :
      (a : Axis) (os : List Op) (s : Sender C)
      → All IsInput os
      → IsReady a (way_of a os) s
      → total ch a (run ch os s) ≡ total ch a s +ℤ travel_of a os
  unfolding run travel_of way_of
  run-total a [] s i r = sym (+ℤ-zero (total ch a s))
  run-total a (o ∷ os) s i r =
      let (same, ready) = step-total a o (way_of a os) s i.0 r in
      run-total a os (step ch o s) i.1 ready
      ∙ ap (λ d. d +ℤ travel_of a os) same
      ∙ +ℤ_assoc (total ch a s) (op_travel a o) (travel_of a os)

  -- Merging loses no motion: as long as the receiver keeps up, after any inputs and passes of the
  -- worker on a new sender whose channel took nothing yet, the moves that the channel took and the
  -- pending one go together, on either axis, as far as all mouse moves that were sent, if the way
  -- of those fits an i32.
  pub motion_conserved :
      (a : Axis) (c : C) (window : ℕ) (os : List Op)
      → ch.accepted c ≡ []
      → All IsInput os
      → way_of a os ≤ i32_max
      → let q = run ch os (new_sender c window) in
        travel a (ch.accepted q.channel) +ℤ pending_travel a q.pending_move ≡ travel_of a os
  motion_conserved a c window os e i w =
      unfold total in run-total a os (new_sender c window) i ready ∙ start
    where
      ready : IsReady a (way_of a os) (new_sender c window)
      ready =
          unfold new_sender in record { is_open = refl; running = refl; small = omega (arith, w) }

      start : total ch a (new_sender c window) +ℤ travel_of a os ≡ travel_of a os
      start =
          unfold total new_sender in
          (ap (λ ms. travel a ms +ℤ pos 0 +ℤ travel_of a os) e ∙ from_nothing a (travel_of a os))
