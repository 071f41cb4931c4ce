-- ===== src/Input/Loopback.antt =====
-- crates/flowkey-input/src/loopback.rs: the suppressor that keeps the events which the daemon
-- injects from being captured again. An instant counts from the clock's earliest one; each method
-- takes the readings of the clock that it makes, in order.
pub mod Suppression
pub mod Order
pub mod Echoes
pub mod Once
use flowkey.Base.{
  ℕ, Bool, true, false, List, [], ◌∷◌, ◌++◌, any, remove_first, ◌-◌, ltb, leb, if◌then◌else◌,
}
use flowkey.Input.Event.{InputEvent, matches_ignoring_timestamp}

pub record RecordedEvent : Type 0 where
  pub recorded_at : ℕ
  pub event : InputEvent

pub record LoopbackSuppressor : Type 0 where
  pub window : ℕ
  pub recent : List RecordedEvent

unfoldable pub new_suppressor : ℕ → LoopbackSuppressor
new_suppressor window = record { window = window; recent = [] }

-- `now.checked_sub(window).unwrap_or_else(Instant::now)`: `again` is the second reading.
abbrev pub cutoff : ℕ → ℕ → ℕ → ℕ
cutoff window now again = if leb window now then now - window else again

-- `while front().recorded_at < cutoff { pop_front() }`.
unfoldable pub drop_expired : ℕ → List RecordedEvent → List RecordedEvent
drop_expired limit [] = []
drop_expired limit (r ∷ rs) = if ltb r.recorded_at limit then drop_expired limit rs else r ∷ rs

unfoldable pub purge_expired : ℕ → ℕ → LoopbackSuppressor → LoopbackSuppressor
unfolding drop_expired
purge_expired now again s = record s { recent = drop_expired (cutoff s.window now again) s.recent }

-- `at` is the reading that stamps the record.
unfoldable pub record_event : ℕ → ℕ → ℕ → InputEvent → LoopbackSuppressor → LoopbackSuppressor
unfolding purge_expired
record_event now again at event s =
    let purged = purge_expired now again s in
    record purged { recent = purged.recent ++ record { recorded_at = at; event = event } ∷ [] }

abbrev pub is_match : InputEvent → RecordedEvent → Bool
is_match event r = matches_ignoring_timestamp r.event event

-- Is the event one that was injected? Its record is used up.
unfoldable pub should_suppress : ℕ → ℕ → InputEvent → LoopbackSuppressor → LoopbackSuppressor × Bool
unfolding purge_expired
should_suppress now again event s =
    let purged = purge_expired now again s in
    if any (is_match event) purged.recent
    then (record purged { recent = remove_first (is_match event) purged.recent }, true)
    else (purged, false)
