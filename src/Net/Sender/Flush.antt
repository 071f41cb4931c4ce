-- ===== src/Net/Sender/Flush.antt =====
-- A flush while the receiver keeps up: what the channel takes, and that no motion is lost.
use mathlib.Core.List.{append-nil}
use flowkey.Base.{
  ℕ, ◌+◌, ◌≤◌, ap₂, subst, Bool, true, false, ◌≡◌, inl, inr, refl, ap, ◌∙◌, sym, ◌++◌, arith, none,
  Option-cases,
}
use flowkey.Base.Int.{ℤ, ◌+ℤ◌, magnitude, +ℤ-zero, i32_max}
use flowkey.Base.Result.{Result}
use flowkey.Input.Event.{Modifiers_eq}
use flowkey.Net.Sender.Channel.{SessionCommand, input, SendChannel, sent}
use flowkey.Net.Sender.State.{Sender, SendError, move_event, scroll_event}
use flowkey.Net.Sender.{flush_move, flush_scroll, if_delivered}
use flowkey.Net.Sender.Worker.{flushed, again}
use flowkey.Net.Sender.Order.{moves, scrolls}
use flowkey.Net.Sender.Travel.{
  Axis, travel, travel-append, pending_travel, travel-moves, travel-scrolls,
}

-- What the sums need: the channel is open, and the pending move stays within an i32 when `budget`
-- is added to it.
pub record IsReady {C : Type 0} (a : Axis) (budget : ℕ) (s : Sender C) : Type 0 where
  pub is_open : s.channel_closed ≡ false
  pub running : s.shutdown ≡ false
  pub small : magnitude (pending_travel a s.pending_move) + budget ≤ i32_max

module _ {C : Type 0} (ch : SendChannel C) where
  pub if_delivered-true :
      (o : Sender C × Bool) (next : Sender C → Sender C × Result SendError (Unit {0}))
      → o.1 ≡ true
      → if_delivered ch o next ≡ next o.0
  if_delivered-true (s, true) next h = refl
  if_delivered-true (s, false) next h = cc

  pub flushed-true : (o : Sender C × Bool) → o.1 ≡ true → flushed ch o ≡ (o.0, again)
  unfolding flushed
  flushed-true (s, true) h = refl
  flushed-true (s, false) h = cc

  -- How far the commands that the channel took and the move that is pending go together.
  unfoldable pub total : Axis → Sender C → ℤ
  total a s = travel a (ch.accepted s.channel) +ℤ pending_travel a s.pending_move

module _ {C : Type 0} (ch : SendChannel C)
    (room : (m : SessionCommand) (c : C) → (ch.try_send m c).1 ≡ sent) where
  pub flush_move-accepted :
      (s : Sender C)
      → ((flush_move ch s).1 ≡ true)
        × (ch.accepted (flush_move ch s).0.channel ≡ ch.accepted s.channel ++ moves s.pending_move)
        × ((flush_move ch s).0.pending_move ≡ none)
        × ((flush_move ch s).0.pending_scroll ≡ s.pending_scroll)
        × ((flush_move ch s).0.channel_closed ≡ s.channel_closed)
        × ((flush_move ch s).0.shutdown ≡ s.shutdown)
  unfolding flush_move
  flush_move-accepted s = elim (Option-cases s.pending_move) [
    | inl e ↦ rw e (refl, sym (append-nil _), refl, refl, refl, refl)
    | inr (p, e) ↦ ground (
      arith,
      room (input (move_event p)) s.channel,
      ch.try_send-sent (input (move_event p)) s.channel,
    )
  ]

  pub flush_scroll-accepted :
      (s : Sender C)
      → ((flush_scroll ch s).1 ≡ true)
        × (ch.accepted (flush_scroll ch s).0.channel
            ≡ ch.accepted s.channel ++ scrolls s.pending_scroll)
        × ((flush_scroll ch s).0.pending_scroll ≡ none)
        × ((flush_scroll ch s).0.pending_move ≡ s.pending_move)
        × ((flush_scroll ch s).0.channel_closed ≡ s.channel_closed)
        × ((flush_scroll ch s).0.shutdown ≡ s.shutdown)
  unfolding flush_scroll
  flush_scroll-accepted s = elim (Option-cases s.pending_scroll) [
    | inl e ↦ rw e (refl, sym (append-nil _), refl, refl, refl, refl)
    | inr (p, e) ↦ ground (
      arith,
      room (input (scroll_event p)) s.channel,
      ch.try_send-sent (input (scroll_event p)) s.channel,
    )
  ]

  pub flush_move-total : (a : Axis) (s : Sender C) → total ch a (flush_move ch s).0 ≡ total ch a s
  unfolding total
  flush_move-total a s =
      let f = flush_move-accepted s in
      ap₂ (λ ms p. travel a ms +ℤ pending_travel a p) f.1 f.2
      ∙ +ℤ-zero (travel a (ch.accepted s.channel ++ moves s.pending_move))
      ∙ travel-append a (ch.accepted s.channel) (moves s.pending_move)
      ∙ ap (λ d. travel a (ch.accepted s.channel) +ℤ d) (travel-moves a s.pending_move)

  pub flush_scroll-total :
      (a : Axis) (s : Sender C) → total ch a (flush_scroll ch s).0 ≡ total ch a s
  unfolding total
  flush_scroll-total a s =
      let f = flush_scroll-accepted s in
      ap₂ (λ ms p. travel a ms +ℤ pending_travel a p) f.1 f.3
      ∙ ap (λ d. d +ℤ pending_travel a s.pending_move)
          (travel-append a (ch.accepted s.channel) (scrolls s.pending_scroll)
            ∙ ap (λ d. travel a (ch.accepted s.channel) +ℤ d) (travel-scrolls a s.pending_scroll)
            ∙ +ℤ-zero (travel a (ch.accepted s.channel)))

  pub flush_scroll-IsReady :
      (a : Axis) (b : ℕ) (s : Sender C) → IsReady a b s → IsReady a b (flush_scroll ch s).0
  flush_scroll-IsReady a b s r =
      let f = flush_scroll-accepted s in
      record {
        is_open = f.4 ∙ r.is_open;
        running = f.5 ∙ r.running;
        small = subst (λ p. magnitude (pending_travel a p) + b ≤ i32_max) (sym f.3) r.small;
      }

  pub flush_move-IsReady :
      (a : Axis) (b : ℕ) (s : Sender C) → IsReady a b s → IsReady a b (flush_move ch s).0
  flush_move-IsReady a b s r =
      let f = flush_move-accepted s in
      record {
        is_open = f.4 ∙ r.is_open;
        running = f.5 ∙ r.running;
        small =
            subst (λ p. magnitude (pending_travel a p) + b ≤ i32_max) (sym f.2)
              (omega (arith, r.small));
      }
