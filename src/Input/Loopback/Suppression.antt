-- ===== src/Input/Loopback/Suppression.antt =====
-- Which captured events the suppressor takes for echoes of injected ones.
use flowkey.Base.{ℕ, ◌+◌, ◌≤◌, ◌≡◌, ◌∙◌, List, [], ◌∷◌, ◌++◌, Bool, true, any, arith}
use flowkey.Input.Event.{InputEvent}
use flowkey.Input.Event.Matching.{at_time, matches-at_time}
use flowkey.Input.Loopback.{
  RecordedEvent, LoopbackSuppressor, cutoff, drop_expired, record_event, should_suppress, is_match,
}
use flowkey.Input.Loopback.Order.{
  Ordered, unexpired, drop_expired-unexpired, Ordered-drop_expired, Ordered-snoc,
}

-- While the records stand in order, an event is suppressed exactly if some record that has not
-- expired matches it.
pub should_suppress_iff :
    (now again low high : ℕ) (e : InputEvent) (s : LoopbackSuppressor)
    → Ordered low high s.recent
    → (should_suppress now again e s).1
      ≡ any (is_match e) (unexpired (cutoff s.window now again) s.recent)
unfolding should_suppress
should_suppress_iff now again low high e s h =
    ground (arith, drop_expired-unexpired (cutoff s.window now again) low high s.recent h)

any_last :
    (p : RecordedEvent → Bool) (limit at : ℕ) (e : InputEvent) (rs : List RecordedEvent)
    → limit ≤ at
    → p (record { recorded_at = at; event = e }) ≡ true
    → any p (unexpired limit (rs ++ record { recorded_at = at; event = e } ∷ [])) ≡ true
any_last p limit at e [] h m = ground arith
any_last p limit at e (r ∷ rs) h m = ground (arith, any_last p limit at e rs h m)

-- An injected event that comes back from the capture within the window after its record is
-- suppressed, whatever timestamp the capture gives it and whatever else is on record, as long as
-- the clock never ran backwards.
pub echo_suppressed :
    (now again at later again' high t : ℕ) (e : InputEvent) (s : LoopbackSuppressor)
    → Ordered 0 high s.recent
    → high ≤ at
    → at ≤ later
    → s.window ≤ later
    → later ≤ at + s.window
    → (should_suppress later again' (at_time t e) (record_event now again at e s)).1 ≡ true
echo_suppressed now again at later again' high t e s h a l w i =
    should_suppress_iff later again' 0 at (at_time t e) (record_event now again at e s) ordered
    ∙ last
  where
    kept : List RecordedEvent
    kept = drop_expired (cutoff s.window now again) s.recent

    ordered : Ordered 0 at (record_event now again at e s).recent
    ordered =
        unfold record_event in
        Ordered-snoc 0 high at e kept
          (Ordered-drop_expired (cutoff s.window now again) 0 high s.recent h) a

    early : cutoff s.window later again' ≤ at
    early = ground arith

    last :
        any (is_match (at_time t e)) (
          unexpired
            (cutoff (record_event now again at e s).window later again')
            (record_event now again at e s).recent)
        ≡ true
    last =
        unfold record_event in
        any_last (is_match (at_time t e)) (cutoff s.window later again') at e kept early
          (matches-at_time t e)
