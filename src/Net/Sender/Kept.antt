-- ===== src/Net/Sender/Kept.antt =====
-- Input leaves the sender in the order in which it came.
use flowkey.Base.{
  ℕ, ◌≡◌, ◌⊎◌, inl, inr, Option-cases, refl, List, [], ◌∷◌, ◌++◌, Option, none, some,
}
use flowkey.Base.Int.{ℤ, saturating_add}
use flowkey.Base.Result.{ok}
use flowkey.Input.Event.{Modifiers, Modifiers_eq, InputEvent, mouse_move, mouse_wheel}
use flowkey.Net.Sender.Channel.{SessionCommand, input, SendChannel}
use flowkey.Net.Sender.State.{Sender, move_event, scroll_event, new_sender}
use flowkey.Net.Sender.{
  flush_move, queue_mouse_move, queue_scroll, send_immediate_input, send_input,
}
use flowkey.Net.Sender.Closed.{Op, run}
use flowkey.Net.Sender.Order.{OnePending, run-OnePending, moves, scrolls}
use mathlib.Core.List.{append-nil, append_assoc}
use flowkey.Base.{sym, ap, ap₂, ◌∙◌}
use flowkey.Net.Sender.Offered.{
  offered, flush_move-offered, flush_scroll-offered, offered-append, immediate_fields, move_fields,
  move_meets, scroll_fields, scroll_meets,
}

-- What the sender still keeps back.
abbrev pub waiting : {C : Type 0} → Sender C → List SessionCommand
waiting s = moves s.pending_move ++ scrolls s.pending_scroll

-- A motion joined by a later one of its kind, at the time of the later one.
abbrev pub join : InputEvent → InputEvent → Option InputEvent
join (mouse_move x y m _) (mouse_move dx dy _ t) =
    some (mouse_move (saturating_add x dx) (saturating_add y dy) m t)
join (mouse_wheel x y m _) (mouse_wheel dx dy _ t) =
    some (mouse_wheel (saturating_add x dx) (saturating_add y dy) m t)
join _ _ = none

module _ {C : Type 0} (ch : SendChannel C) where
  -- What was waiting and then the event are what the channel was offered, in this order, followed
  -- by what waits now.
  abbrev pub InOrder : InputEvent → Sender C → Sender C → Type 0
  InOrder e s q =
      (out : List SessionCommand) × (q.channel ≡ offered ch out s.channel)
      × (out ++ waiting q ≡ waiting s ++ input e ∷ [])

  -- The event joined the one motion that was waiting, and nothing was offered.
  abbrev pub Joined : InputEvent → Sender C → Sender C → Type 0
  Joined e s q =
      (first : InputEvent) × (both : InputEvent) × (q.channel ≡ s.channel)
      × (waiting s ≡ input first ∷ [])
      × (join first e ≡ some both)
      × (waiting q ≡ input both ∷ [])

  immediate :
      (e : InputEvent) (s : Sender C)
      → (send_immediate_input ch e s).1 ≡ ok tt
      → InOrder e s (send_immediate_input ch e s).0
  immediate e s done =
      let s1 = (flush_move ch s).0 in
      let (channel, pm, ps) = immediate_fields ch e s done in
      let (c1, pm1, ps1) = flush_move-offered ch s in
      let (c2, ps2, pm2) = flush_scroll-offered ch s1 in
      let all = moves s.pending_move ++ (scrolls s.pending_scroll ++ input e ∷ []) in
      (
        all,
        rw
            (
              offered-append ch (moves s.pending_move) (scrolls s.pending_scroll ++ input e ∷ [])
                  s.channel,
              offered-append ch (scrolls s.pending_scroll) (input e ∷ [])
                  (offered ch (moves s.pending_move) s.channel),
            )
            (channel
              ∙ ap (λ c. (ch.try_send (input e) c).0)
                  (c2 ∙ ap₂ (λ p c. offered ch (scrolls p) c) ps1 c1)),
        rw (pm ∙ pm2 ∙ pm1, ps ∙ ps2)
            (append-nil all
              ∙ sym
                  (append_assoc (moves s.pending_move) (scrolls s.pending_scroll) (input e ∷ []))),
      )

  move_kept :
      (dx dy : ℤ) (m : Modifiers) (t now : ℕ) (s : Sender C)
      → OnePending s
      → (queue_mouse_move ch dx dy m t now s).1 ≡ ok tt
      → let q = (queue_mouse_move ch dx dy m t now s).0 in
        InOrder (mouse_move dx dy m t) s q ⊎ Joined (mouse_move dx dy m t) s q
  move_kept dx dy m t now s h done = elim (Option-cases s.pending_move) [
    | inl e ↦
        let (channel, pm, ps) = move_fields ch dx dy m t now s e done in
        let (c, ps', pm') = flush_scroll-offered ch s in
        inl (scrolls s.pending_scroll, channel ∙ c, rw (pm, ps ∙ ps', e) refl)
    | inr (p, e) ↦
        let no_scroll : s.pending_scroll ≡ none = elim h [ inl f ↦ cc | inr f ↦ f ] in
        let (ps, met) = move_meets ch dx dy m t now p s e no_scroll done in
        elim met [
          | inl (channel, pm) ↦ inr (
            move_event p,
            mouse_move (saturating_add p.dx dx) (saturating_add p.dy dy) p.modifiers t,
            channel,
            rw (e, no_scroll) refl,
            refl,
            rw (pm, ps) refl,
          )
          | inr (channel, pm) ↦
              inl (input (move_event p) ∷ [], channel, rw (pm, ps, e, no_scroll) refl)
        ]
  ]

  scroll_kept :
      (dx dy : ℤ) (m : Modifiers) (t now : ℕ) (s : Sender C)
      → OnePending s
      → (queue_scroll ch dx dy m t now s).1 ≡ ok tt
      → let q = (queue_scroll ch dx dy m t now s).0 in
        InOrder (mouse_wheel dx dy m t) s q ⊎ Joined (mouse_wheel dx dy m t) s q
  scroll_kept dx dy m t now s h done = elim (Option-cases s.pending_scroll) [
    | inl e ↦
        let (channel, ps, pm) = scroll_fields ch dx dy m t now s e done in
        let (c, pm', ps') = flush_move-offered ch s in
        inl (
          moves s.pending_move,
          channel ∙ c,
          rw (ps, pm ∙ pm', e)
              (ap (λ out. out ++ input (mouse_wheel dx dy m t) ∷ [])
                (sym (append-nil (moves s.pending_move)))),
        )
    | inr (p, e) ↦
        let no_move : s.pending_move ≡ none = elim h [ inl f ↦ f | inr f ↦ cc ] in
        let (pm, met) = scroll_meets ch dx dy m t now p s e no_move done in
        elim met [
          | inl (channel, ps) ↦ inr (
            scroll_event p,
            mouse_wheel (saturating_add p.delta_x dx) (saturating_add p.delta_y dy) p.modifiers t,
            channel,
            rw (e, no_move) refl,
            refl,
            rw (ps, pm) refl,
          )
          | inr (channel, ps) ↦
              inl (input (scroll_event p) ∷ [], channel, rw (ps, pm, e, no_move) refl)
        ]
  ]

  kept :
      (e : InputEvent) (now : ℕ) (s : Sender C)
      → OnePending s
      → (send_input ch e now s).1 ≡ ok tt
      → InOrder e s (send_input ch e now s).0 ⊎ Joined e s (send_input ch e now s).0
  unfolding send_input
  kept (mouse_move dx dy m t) now s h done = move_kept dx dy m t now s h done
  kept (mouse_wheel dx dy m t) now s h done = scroll_kept dx dy m t now s h done
  kept e now s h done = inl (immediate e s done)

  -- After any history of a new sender, sending an input that is taken either joins it to the one
  -- motion of its kind that waits, with nothing offered to the channel, or the channel is offered
  -- what waited and then the input, in this order, up to what waits afterwards: the input does not
  -- overtake what waited, and sending it discards nothing before the channel was offered it.
  pub sent-InOrder :
      (c : C) (window : ℕ) (os : List Op) (e : InputEvent) (now : ℕ)
      → (send_input ch e now (run ch os (new_sender c window))).1 ≡ ok tt
      → let s = run ch os (new_sender c window) in
        InOrder e s (send_input ch e now s).0 ⊎ Joined e s (send_input ch e now s).0
  sent-InOrder c window os e now done =
      kept e now (run ch os (new_sender c window)) (run-OnePending ch c window os) done
