-- ===== src/Input/Loopback/Order.antt =====
-- The records stand in the order of their instants, so that the purge, which looks at the front
-- only, forgets exactly the expired ones.
use flowkey.Base.{
  ℕ, ◌≤◌, ◌≡◌, refl, List, [], ◌∷◌, ◌++◌, remove_first, Bool, ltb, arith, if◌then◌else◌,
}
use flowkey.Input.Event.{InputEvent}
use flowkey.Input.Loopback.{
  RecordedEvent, LoopbackSuppressor, cutoff, drop_expired, purge_expired, record_event,
  should_suppress, is_match, new_suppressor,
}

-- Each record is no older than `low`, nor than the one in front of it, and no newer than `high`.
abbrev pub Ordered : ℕ → ℕ → List RecordedEvent → Type 0
Ordered low high [] = low ≤ high
Ordered low high (r ∷ rs) = (low ≤ r.recorded_at) × Ordered r.recorded_at high rs

-- The records that are not expired.
abbrev pub unexpired : ℕ → List RecordedEvent → List RecordedEvent
unexpired limit [] = []
unexpired limit (r ∷ rs) =
    let rest = unexpired limit rs in if ltb r.recorded_at limit then rest else r ∷ rest

Ordered-bounds : (low high : ℕ) (rs : List RecordedEvent) → Ordered low high rs → low ≤ high
Ordered-bounds low high [] h = h
Ordered-bounds low high (r ∷ rs) h = omega (arith, Ordered-bounds r.recorded_at high rs h.1)

Ordered-weaken :
    (low low' high high' : ℕ) (rs : List RecordedEvent)
    → Ordered low high rs
    → low' ≤ low
    → high ≤ high'
    → Ordered low' high' rs
Ordered-weaken low low' high high' [] h a b = omega arith
Ordered-weaken low low' high high' (r ∷ rs) h a b =
    (omega arith, Ordered-weaken r.recorded_at r.recorded_at high high' rs h.1 (omega arith) b)

unexpired-all :
    (limit low high : ℕ) (rs : List RecordedEvent)
    → Ordered low high rs
    → limit ≤ low
    → unexpired limit rs ≡ rs
unexpired-all limit low high [] h a = refl
unexpired-all limit low high (r ∷ rs) h a =
    ground (arith, unexpired-all limit r.recorded_at high rs h.1)

pub drop_expired-unexpired :
    (limit low high : ℕ) (rs : List RecordedEvent)
    → Ordered low high rs
    → drop_expired limit rs ≡ unexpired limit rs
unfolding drop_expired
drop_expired-unexpired limit low high [] h = refl
drop_expired-unexpired limit low high (r ∷ rs) h = ground (
  arith,
  drop_expired-unexpired limit r.recorded_at high rs h.1,
  unexpired-all limit r.recorded_at high rs h.1,
)

-- While the records stand in order the purge forgets exactly those that are older than the cutoff,
-- and keeps the others in their order.
pub purge_expired-unexpired :
    (now again low high : ℕ) (s : LoopbackSuppressor)
    → Ordered low high s.recent
    → (purge_expired now again s).recent ≡ unexpired (cutoff s.window now again) s.recent
unfolding purge_expired
purge_expired-unexpired now again low high s h =
    drop_expired-unexpired (cutoff s.window now again) low high s.recent h

pub Ordered-drop_expired :
    (limit low high : ℕ) (rs : List RecordedEvent)
    → Ordered low high rs
    → Ordered low high (drop_expired limit rs)
unfolding drop_expired
Ordered-drop_expired limit low high [] h = h
Ordered-drop_expired limit low high (r ∷ rs) h = ground (
  arith,
  Ordered-drop_expired limit low high rs,
  Ordered-weaken r.recorded_at low high high rs h.1,
)

pub Ordered-snoc :
    (low high at : ℕ) (e : InputEvent) (rs : List RecordedEvent)
    → Ordered low high rs
    → high ≤ at
    → Ordered low at (rs ++ record { recorded_at = at; event = e } ∷ [])
Ordered-snoc low high at e [] h a = omega arith
Ordered-snoc low high at e (r ∷ rs) h a = (h.0, Ordered-snoc r.recorded_at high at e rs h.1 a)

Ordered-remove_first :
    (p : RecordedEvent → Bool) (low high : ℕ) (rs : List RecordedEvent)
    → Ordered low high rs
    → Ordered low high (remove_first p rs)
Ordered-remove_first p low high [] h = h
Ordered-remove_first p low high (r ∷ rs) h = ground (
  arith,
  Ordered-remove_first p r.recorded_at high rs h.1,
  Ordered-weaken r.recorded_at low high high rs h.1,
)

-- A use of the suppressor, with its readings of the clock.
pub data Use : Type 0 where
  records : ℕ → ℕ → ℕ → InputEvent → Use
  asks : ℕ → ℕ → InputEvent → Use

unfoldable pub use_once : Use → LoopbackSuppressor → LoopbackSuppressor
use_once (records now again at e) s = record_event now again at e s
use_once (asks now again e) s = (should_suppress now again e s).0

unfoldable pub use_all : List Use → LoopbackSuppressor → LoopbackSuppressor
use_all [] s = s
use_all (u ∷ us) s = use_all us (use_once u s)

abbrev last_reading : Use → ℕ → ℕ
last_reading (records now again at e) before = at
last_reading (asks now again e) before = before

-- The instants of the records never run backwards.
abbrev pub Monotone : ℕ → List Use → Type 0
Monotone before [] = Unit
Monotone before (u ∷ us) = (before ≤ last_reading u before) × Monotone (last_reading u before) us

abbrev pub latest : ℕ → List Use → ℕ
latest before [] = before
latest before (u ∷ us) = latest (last_reading u before) us

use_once-Ordered :
    (u : Use) (low high : ℕ) (s : LoopbackSuppressor)
    → Ordered low high s.recent
    → high ≤ last_reading u high
    → Ordered low (last_reading u high) (use_once u s).recent
unfolding use_once record_event should_suppress
use_once-Ordered (records now again at e) low high s h m =
    Ordered-snoc low high at e (drop_expired (cutoff s.window now again) s.recent)
      (Ordered-drop_expired (cutoff s.window now again) low high s.recent h) m
use_once-Ordered (asks now again e) low high s h m = ground (
  arith,
  Ordered-drop_expired (cutoff s.window now again) low high s.recent h,
  Ordered-remove_first (is_match e) low high (drop_expired (cutoff s.window now again) s.recent),
)

use_all_from-Ordered :
    (us : List Use) (low high : ℕ) (s : LoopbackSuppressor)
    → Ordered low high s.recent
    → Monotone high us
    → Ordered low (latest high us) (use_all us s).recent
unfolding use_all
use_all_from-Ordered [] low high s h m = h
use_all_from-Ordered (u ∷ us) low high s h m =
    use_all_from-Ordered us low (last_reading u high) (use_once u s)
      (use_once-Ordered u low high s h m.0) m.1

-- With a clock that never runs backwards the records of a suppressor stand in the order of their
-- instants, none later than the last one recorded, after any sequence of records and questions.
pub use_all-Ordered :
    (window : ℕ) (us : List Use)
    → Monotone 0 us
    → Ordered 0 (latest 0 us) (use_all us (new_suppressor window)).recent
use_all-Ordered window us m =
    use_all_from-Ordered us 0 0 (new_suppressor window) (unfold new_suppressor in omega arith) m
