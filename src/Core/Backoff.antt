-- ===== src/Core/Backoff.antt =====
-- crates/flowkey-core/src/recovery.rs: the delays between attempts to reconnect, in seconds.
use native.Mathlib.Nat.{pow-suc}
use flowkey.Base.{ap, ◌∙◌, ℕ, zero, suc, ◌*◌, ◌-◌, ◌^◌, ◌≤◌, ◌≡◌, refl, min, max, arith}

pub record ReconnectBackoff : Type 0 where
  pub current_secs : ℕ
  pub initial_secs : ℕ
  pub max_secs : ℕ

abbrev pub u64_max : ℕ
u64_max = 2 ^ 64 - 1

-- `saturating_mul(2)`.
abbrev doubled : ℕ → ℕ
doubled n = min (n * 2) u64_max

unfoldable pub new_backoff : ℕ → ℕ → ReconnectBackoff
new_backoff initial most = record {
  current_secs = max initial 1;
  initial_secs = max initial 1;
  max_secs = max most (max initial 1);
}

-- The delay to wait now, with the backoff for the next one.
unfoldable pub next_delay : ReconnectBackoff → ReconnectBackoff × ℕ
next_delay b = (record b { current_secs = min (doubled b.current_secs) b.max_secs }, b.current_secs)

unfoldable pub reset : ReconnectBackoff → ReconnectBackoff
reset b = record b { current_secs = b.initial_secs }

-- `ReconnectBackoff::default`.
abbrev pub default_backoff : ReconnectBackoff
unfolding new_backoff
default_backoff = new_backoff 1 8

-- The backoff after that many attempts failed.
pub after_failures : ℕ → ReconnectBackoff → ReconnectBackoff
after_failures zero b = b
after_failures (suc n) b = (next_delay (after_failures n b)).0

new_backoff-start :
    (initial most : ℕ)
    → (new_backoff initial most).current_secs ≡ (new_backoff initial most).initial_secs
unfolding new_backoff
new_backoff-start initial most = refl

after_failures-fields :
    (n : ℕ) (b : ReconnectBackoff)
    → ((after_failures n b).initial_secs ≡ b.initial_secs)
      × ((after_failures n b).max_secs ≡ b.max_secs)
unfolding after_failures next_delay
after_failures-fields zero b = (refl, refl)
after_failures-fields (suc n) b = after_failures-fields n b

doubling : (p m : ℕ) → m ≤ u64_max → min (doubled (min p m)) m ≡ min (p * 2) m
doubling p m h = omega arith

after_failures-current :
    (n : ℕ) (b : ReconnectBackoff)
    → b.current_secs ≡ b.initial_secs
    → b.initial_secs ≤ b.max_secs
    → b.max_secs ≤ u64_max
    → (after_failures n b).current_secs ≡ min (b.initial_secs * 2 ^ n) b.max_secs
unfolding after_failures next_delay
after_failures-current zero b e h w = omega arith
after_failures-current (suc n) b e h w =
    rw (after_failures-current n b e h w, (after_failures-fields n b).1)
      (doubling (b.initial_secs * 2 ^ n) b.max_secs w
        ∙ ap (λ t. min t b.max_secs) (omega (arith, ap (λ t. b.initial_secs * t) (pow-suc 2 n))))

-- After n failures in a row a backoff for u64 settings waits the initial delay doubled n times, or
-- the maximum if that is less; a zero initial delay counts as one second, and a maximum below the
-- initial delay as that. The saturating product never shows.
pub delay_after_failures :
    (n initial most : ℕ)
    → initial ≤ u64_max
    → most ≤ u64_max
    → (next_delay (after_failures n (new_backoff initial most))).1
      ≡ min (max initial 1 * 2 ^ n) (max most (max initial 1))
unfolding next_delay new_backoff
delay_after_failures n initial most h k =
    after_failures-current n (new_backoff initial most) refl (omega arith) (omega arith)

-- A success resets the backoff to what it was when new, whatever failed before it.
pub reset-after_failures :
    (n initial most : ℕ)
    → reset (after_failures n (new_backoff initial most)) ≡ new_backoff initial most
unfolding reset
reset-after_failures n initial most =
    ground
      (arith, after_failures-fields n (new_backoff initial most), new_backoff-start initial most)
