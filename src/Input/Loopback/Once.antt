-- ===== src/Input/Loopback/Once.antt =====
-- How many events the records of an event hide.
use flowkey.Base.{
  one_if, ℕ, ◌+◌, ◌≤◌, ◌≡◌, refl, List, [], ◌∷◌, ◌++◌, true, ◌&&◌, any, remove_first, arith,
}
use flowkey.Input.Event.{InputEvent, matches_ignoring_timestamp}
use flowkey.Input.Event.Matching.{matches-alike}
use flowkey.Input.Loopback.{
  RecordedEvent, LoopbackSuppressor, new_suppressor, cutoff, drop_expired, record_event,
  should_suppress, is_match,
}
use flowkey.Input.Loopback.Order.{Use, records, asks, use_once, use_all}

-- How often a question for an event like `e` was answered with yes, how often such an event was
-- recorded, and how many records are of such events.
pub suppressions_like : InputEvent → List Use → LoopbackSuppressor → ℕ
suppressions_like e [] s = 0
suppressions_like e (records now again at other ∷ us) s =
    suppressions_like e us (use_once (records now again at other) s)
suppressions_like e (asks now again other ∷ us) s =
    one_if (matches_ignoring_timestamp e other && (should_suppress now again other s).1)
    + suppressions_like e us (use_once (asks now again other) s)

pub recordings_like : InputEvent → List Use → ℕ
recordings_like e [] = 0
recordings_like e (records now again at other ∷ us) =
    one_if (matches_ignoring_timestamp e other) + recordings_like e us
recordings_like e (asks now again other ∷ us) = recordings_like e us

pub kept_like : InputEvent → List RecordedEvent → ℕ
kept_like e [] = 0
kept_like e (r ∷ rs) = one_if (matches_ignoring_timestamp e r.event) + kept_like e rs

kept_like-snoc :
    (e : InputEvent) (rs : List RecordedEvent) (r : RecordedEvent)
    → kept_like e (rs ++ r ∷ []) ≡ kept_like e rs + one_if (matches_ignoring_timestamp e r.event)
unfolding kept_like
kept_like-snoc e [] r = omega arith
kept_like-snoc e (x ∷ xs) r = omega (arith, kept_like-snoc e xs r)

kept_like-drop_expired :
    (e : InputEvent) (limit : ℕ) (rs : List RecordedEvent)
    → kept_like e (drop_expired limit rs) ≤ kept_like e rs
unfolding kept_like drop_expired
kept_like-drop_expired e limit [] = omega arith
kept_like-drop_expired e limit (r ∷ rs) = ground (arith, kept_like-drop_expired e limit rs)

-- What is removed for an event is a record of an event like it.
kept_like-remove_first :
    (e other : InputEvent) (rs : List RecordedEvent)
    → any (is_match other) rs ≡ true
    → kept_like e (remove_first (is_match other) rs) + one_if (matches_ignoring_timestamp e other)
      ≡ kept_like e rs
unfolding kept_like
kept_like-remove_first e other [] h = cc
kept_like-remove_first e other (r ∷ rs) h =
    ground (arith, matches-alike e r.event other, kept_like-remove_first e other rs)

like-record :
    (e other : InputEvent) (now again at : ℕ) (s : LoopbackSuppressor)
    → kept_like e (record_event now again at other s).recent
      ≤ kept_like e s.recent + one_if (matches_ignoring_timestamp e other)
unfolding record_event
like-record e other now again at s = omega (
  arith,
  kept_like-snoc e (drop_expired (cutoff s.window now again) s.recent)
      (record { recorded_at = at; event = other }),
  kept_like-drop_expired e (cutoff s.window now again) s.recent,
)

like-ask :
    (e other : InputEvent) (now again : ℕ) (s : LoopbackSuppressor)
    → one_if (matches_ignoring_timestamp e other && (should_suppress now again other s).1)
        + kept_like e (should_suppress now again other s).0.recent
      ≤ kept_like e s.recent
unfolding should_suppress
like-ask e other now again s = ground (
  arith,
  kept_like-remove_first e other (drop_expired (cutoff s.window now again) s.recent),
  kept_like-drop_expired e (cutoff s.window now again) s.recent,
)

like_from :
    (e : InputEvent) (us : List Use) (s : LoopbackSuppressor)
    → suppressions_like e us s + kept_like e (use_all us s).recent
      ≤ kept_like e s.recent + recordings_like e us
unfolding suppressions_like recordings_like use_all use_once
like_from e [] s = omega arith
like_from e (records now again at other ∷ us) s =
    omega (
      arith,
      like-record e other now again at s,
      like_from e us (record_event now again at other s),
    )
like_from e (asks now again other ∷ us) s =
    omega
      (arith, like-ask e other now again s, like_from e us (should_suppress now again other s).0)

none_like : (e : InputEvent) (window : ℕ) → kept_like e (new_suppressor window).recent ≡ 0
unfolding new_suppressor kept_like
none_like e window = refl

-- Each record hides at most one captured event, and one that is like it: after any sequence of
-- records and questions, with any clock, the events like a given one that the suppressor hid, and
-- the records of such events that it still keeps, are together at most as many as the records of
-- such events that were made.
pub hides_once :
    (window : ℕ) (e : InputEvent) (us : List Use)
    → suppressions_like e us (new_suppressor window)
        + kept_like e (use_all us (new_suppressor window)).recent
      ≤ recordings_like e us
hides_once window e us = omega (arith, like_from e us (new_suppressor window), none_like e window)
