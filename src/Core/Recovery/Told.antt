-- ===== src/Core/Recovery/Told.antt =====
-- What a sink is told by the forced release after a history of events.
use mathlib.Core.List.{reverse-cons}
use flowkey.Base.{
  one_if, ℕ, ◌+◌, ◌≡◌, refl, String_eq, ◌∙◌, ap, sym, String, Bool, false, List, [], ◌∷◌, ◌++◌,
  reverse, length, arith,
}
use flowkey.Input.Event.{Modifiers, InputEvent, key_up, mouse_button_up}
use flowkey.Input.Sink.{InputEventSink}
use flowkey.Core.Recovery.{
  HeldInput, key, button, HeldKeyTracker, no_held, held_eq, held_eq_iff, contains, keys_of,
  buttons_of, release_all,
}
use flowkey.Core.Recovery.Held.{
  Distinct, observe_all, observe_all-Distinct, observe_all-is_down, is_down,
}
use flowkey.Base.Result.{Result, ok}
use flowkey.Core.Recovery.Release.{
  forced_events, feed, release_all-feed, key_releases, button_releases, last_mask,
}
use mathlib.Core.List.{append-nil, append_assoc}

-- A sink that writes down what it is told, and answers as it likes.
abbrev pub recorder : (InputEvent → Result String (Unit {0})) → InputEventSink (List InputEvent)
recorder answer = record {
  handle = λ e log. (log ++ e ∷ [], answer e);
  release_all = λ log. (log, ok tt);
}

feed-recorder :
    (answer : InputEvent → Result String (Unit {0})) (es log : List InputEvent)
    → feed (recorder answer) es log ≡ log ++ es
unfolding feed
feed-recorder answer [] log = sym (append-nil log)
feed-recorder answer (e ∷ es) log =
    feed-recorder answer es (log ++ e ∷ []) ∙ append_assoc log (e ∷ []) es

-- What the forced release writes down.
pub released :
    (answer : InputEvent → Result String (Unit {0})) (t : HeldKeyTracker)
    → release_all (recorder answer) t [] ≡ (
      no_held,
      forced_events t,
      record {
        forced_key_releases = length (keys_of (reverse t.held_inputs));
        forced_button_releases = length (buttons_of (reverse t.held_inputs));
      },
    )
released answer t =
    rw (release_all-feed (recorder answer) t [], feed-recorder answer (forced_events t) []) refl

-- Does the event let the input go?
abbrev pub lets_go : HeldInput → InputEvent → Bool
lets_go h (key_up c _ _) = held_eq (key c) h
lets_go h (mouse_button_up b _ _) = held_eq (button b) h
lets_go h _ = false

-- How many of the events let the input go.
pub releases : HeldInput → List InputEvent → ℕ
releases h [] = 0
releases h (e ∷ es) = one_if (lets_go h e) + releases h es

releases-append :
    (h : HeldInput) (xs ys : List InputEvent)
    → releases h (xs ++ ys) ≡ releases h xs + releases h ys
unfolding releases
releases-append h [] ys = omega arith
releases-append h (x ∷ xs) ys = omega (arith, releases-append h xs ys)

occurrences : HeldInput → List HeldInput → ℕ
occurrences h [] = 0
occurrences h (x ∷ xs) = one_if (held_eq x h) + occurrences h xs

occurrences-append :
    (h : HeldInput) (xs ys : List HeldInput)
    → occurrences h (xs ++ ys) ≡ occurrences h xs + occurrences h ys
unfolding occurrences
occurrences-append h [] ys = omega arith
occurrences-append h (x ∷ xs) ys = omega (arith, occurrences-append h xs ys)

occurrences-reverse :
    (h : HeldInput) (xs : List HeldInput) → occurrences h (reverse xs) ≡ occurrences h xs
unfolding occurrences
occurrences-reverse h [] = refl
occurrences-reverse h (x ∷ xs) =
    rw (reverse-cons x xs)
      (omega (arith, occurrences-append h (reverse xs) (x ∷ []), occurrences-reverse h xs))

occurrences-Distinct :
    (h : HeldInput) (xs : List HeldInput) → Distinct xs → occurrences h xs ≡ one_if (contains h xs)
unfolding occurrences
occurrences-Distinct h [] d = refl
occurrences-Distinct h (x ∷ xs) d = ground (arith, occurrences-Distinct h xs d.1, held_eq_iff x h)

releases-held :
    (h : HeldInput) (t : HeldKeyTracker) (mask : Modifiers) (xs : List HeldInput)
    → releases h (key_releases t (keys_of xs)) + releases h (button_releases mask (buttons_of xs))
      ≡ occurrences h xs
unfolding releases key_releases button_releases occurrences
releases-held h t mask [] = refl
releases-held h t mask (key c ∷ xs) = omega (arith, releases-held h t mask xs)
releases-held h t mask (button b ∷ xs) = omega (arith, releases-held h t mask xs)

-- After any history of events the forced release tells the sink to let every input that is down go
-- exactly once, and no other input at all, whatever errors the sink reports, and its tracker is the
-- empty one.
pub release_all-releases :
    (answer : InputEvent → Result String (Unit {0})) (h : HeldInput) (es : List InputEvent)
    → let (t, log, counts) = release_all (recorder answer) (observe_all es no_held) [] in
      (releases h log ≡ one_if (is_down h es false)) × (t ≡ no_held)
unfolding forced_events
release_all-releases answer h es =
    let t = observe_all es no_held in
    let held = reverse t.held_inputs in
    let mask = last_mask t (keys_of held) t.modifiers in
    rw (released answer t) (
      releases-append h (key_releases t (keys_of held)) (button_releases mask (buttons_of held))
          ∙ releases-held h t mask held
          ∙ occurrences-reverse h t.held_inputs
          ∙ occurrences-Distinct h t.held_inputs (observe_all-Distinct es)
          ∙ ap one_if (observe_all-is_down h es),
      refl,
    )
