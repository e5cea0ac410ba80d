-- ===== src/Prelude/Ranges.antt =====
-- Checking a test at every number below a bound by evaluation.
use moonlight_wii.Prelude.{ℕ, zero, suc, ◌<◌, ◌≡◌, Bool, true, ◌&&◌, arith}

unfoldable pub holds_below : (ℕ → Bool) → ℕ → Bool
holds_below test zero = true
holds_below test (suc n) = holds_below test n && test n

-- What was checked holds of each number in the range.
pub holds_below→ : (test : ℕ → Bool) (n k : ℕ) → holds_below test n ≡ true → k < n → test k ≡ true
unfolding holds_below
holds_below→ test zero k h lt = elim lt [ ]
holds_below→ test (suc n) k h lt = ground (arith, holds_below→ test n k)
