-- ===== src/Input/Loopback/Echoes.antt =====
-- How long a record hides the echo of its event.
use flowkey.Base.{
  ℕ, ◌≤◌, ◌≡◌, refl, sym, subst, ◌∙◌, List, [], ◌∷◌, ◌++◌, Bool, true, false, ◌&&◌, any,
  remove_first, arith, leb,
}
use flowkey.Input.Event.{InputEvent, matches_ignoring_timestamp}
use flowkey.Input.Event.Matching.{at_time, matches-retimed, matches-alike, matches_itself}
use flowkey.Input.Loopback.{
  RecordedEvent, LoopbackSuppressor, cutoff, drop_expired, record_event, should_suppress, is_match,
}
use flowkey.Input.Loopback.Order.{Use, records, asks, use_once, use_all}

-- The uses of the suppressor that leave a record of `e` from the instant `at` alone: their cutoff
-- is not later, and no event like `e` is asked for.
abbrev pub Spares : ℕ → ℕ → InputEvent → Use → Type 0
Spares window at e (records now again stamp other) = cutoff window now again ≤ at
Spares window at e (asks now again other) =
    (cutoff window now again ≤ at) × (matches_ignoring_timestamp e other ≡ false)

abbrev pub AllSpare : ℕ → ℕ → InputEvent → List Use → Type 0
AllSpare window at e [] = Unit
AllSpare window at e (u ∷ us) = Spares window at e u × AllSpare window at e us

-- A record of an event like `e` that is no older than `at`.
abbrev hides : ℕ → InputEvent → RecordedEvent → Bool
hides at e r = matches_ignoring_timestamp e r.event && leb at r.recorded_at

any-drop_expired :
    (at limit : ℕ) (e : InputEvent) (rs : List RecordedEvent)
    → limit ≤ at
    → any (hides at e) rs ≡ true
    → any (hides at e) (drop_expired limit rs) ≡ true
unfolding drop_expired
any-drop_expired at limit e [] h k = k
any-drop_expired at limit e (r ∷ rs) h k = ground (arith, any-drop_expired at limit e rs h)

any-snoc :
    (p : RecordedEvent → Bool) (rs : List RecordedEvent) (r : RecordedEvent)
    → any p rs ≡ true
    → any p (rs ++ r ∷ []) ≡ true
any-snoc p [] r h = cc
any-snoc p (x ∷ xs) r h = ground (arith, any-snoc p xs r)

last_hides :
    (p : RecordedEvent → Bool) (rs : List RecordedEvent) (r : RecordedEvent)
    → p r ≡ true
    → any p (rs ++ r ∷ []) ≡ true
last_hides p [] r h = ground arith
last_hides p (x ∷ xs) r h = ground (arith, last_hides p xs r)

any-remove_first :
    (at : ℕ) (e other : InputEvent) (rs : List RecordedEvent)
    → matches_ignoring_timestamp e other ≡ false
    → any (hides at e) rs ≡ true
    → any (hides at e) (remove_first (is_match other) rs) ≡ true
any-remove_first at e other [] h k = k
any-remove_first at e other (r ∷ rs) h k =
    ground (arith, matches-alike e r.event other, any-remove_first at e other rs h)

matches_back :
    (e a : InputEvent)
    → matches_ignoring_timestamp e a ≡ true
    → matches_ignoring_timestamp a e ≡ true
matches_back e a h = matches-alike a e a h ∙ matches_itself a

hidden :
    (at t : ℕ) (e : InputEvent) (rs : List RecordedEvent)
    → any (hides at e) rs ≡ true
    → any (is_match (at_time t e)) rs ≡ true
hidden at t e [] h = h
hidden at t e (r ∷ rs) h =
    ground (arith, matches_back e r.event, matches-retimed r.event e t, hidden at t e rs)

use_once-window : (u : Use) (s : LoopbackSuppressor) → (use_once u s).window ≡ s.window
unfolding use_once record_event should_suppress
use_once-window (records now again stamp other) s = refl
use_once-window (asks now again other) s = ground arith

-- A record stays over a use that spares it.
spared :
    (at : ℕ) (e : InputEvent) (u : Use) (s : LoopbackSuppressor)
    → Spares s.window at e u
    → any (hides at e) s.recent ≡ true
    → any (hides at e) (use_once u s).recent ≡ true
unfolding use_once record_event should_suppress
spared at e (records now again stamp other) s h k =
    any-snoc (hides at e) (drop_expired (cutoff s.window now again) s.recent)
      (record { recorded_at = stamp; event = other })
      (any-drop_expired at (cutoff s.window now again) e s.recent h k)
spared at e (asks now again other) s h k = ground (
  arith,
  any-drop_expired at (cutoff s.window now again) e s.recent h.0 k,
  any-remove_first at e other (drop_expired (cutoff s.window now again) s.recent) h.1,
)

all_spared :
    (at : ℕ) (e : InputEvent) (us : List Use) (s : LoopbackSuppressor)
    → AllSpare s.window at e us
    → any (hides at e) s.recent ≡ true
    → (any (hides at e) (use_all us s).recent ≡ true) × ((use_all us s).window ≡ s.window)
unfolding use_all
all_spared at e [] s h k = (k, refl)
all_spared at e (u ∷ us) s h k =
    let w = use_once-window u s in
    let (kept, same) =
      all_spared at e us (use_once u s) (subst (λ n. AllSpare n at e us) (sym w) h.1)
        (spared at e u s h.0 k) in
    (kept, same ∙ w)

recorded :
    (now again at : ℕ) (e : InputEvent) (s : LoopbackSuppressor)
    → any (hides at e) (record_event now again at e s).recent ≡ true
unfolding record_event
recorded now again at e s =
    last_hides (hides at e) (drop_expired (cutoff s.window now again) s.recent)
      (record { recorded_at = at; event = e }) (ground (arith, matches_itself e))

asked :
    (at later again t : ℕ) (e : InputEvent) (s : LoopbackSuppressor)
    → cutoff s.window later again ≤ at
    → any (hides at e) s.recent ≡ true
    → (should_suppress later again (at_time t e) s).1 ≡ true
unfolding should_suppress
asked at later again t e s h k = ground (
  arith,
  hidden at t e (drop_expired (cutoff s.window later again) s.recent)
      (any-drop_expired at (cutoff s.window later again) e s.recent h k),
)

-- An injected event that comes back from the capture is suppressed, whatever timestamp the capture
-- gives it and whatever else is on record, when since its record at the instant `at` no event like
-- it was asked for, and no use of the suppressor since then, nor the question itself, has a cutoff
-- after `at`: the cutoff of a reading of the clock is that reading less the window, or the second
-- reading where the clock shows less than the window.
pub echo_hidden :
    (now again at later again' t : ℕ) (e : InputEvent) (us : List Use) (s : LoopbackSuppressor)
    → AllSpare s.window at e us
    → cutoff s.window later again' ≤ at
    → (should_suppress later again' (at_time t e) (use_all us (record_event now again at e s))).1
      ≡ true
echo_hidden now again at later again' t e us s h k =
    let s' = record_event now again at e s in
    let w : s'.window ≡ s.window = unfold record_event in refl in
    let (kept, same) =
      all_spared at e us s' (subst (λ n. AllSpare n at e us) (sym w) h)
        (recorded now again at e s) in
    asked at later again' t e (use_all us s')
      (subst (λ n. cutoff n later again' ≤ at) (sym (same ∙ w)) k) kept
