-- ===== src/Utils/Scale/Exact.antt =====
-- What a scaled amount is when the step succeeds, and when it does.
use stendar_l.Base.{ℕ, ◌+◌, ◌*◌, ◌/◌, ◌%◌, ◌≤◌, ◌<◌, ◌≡◌, arith}
use native.Mathlib.Decide.{dec_le}
use native.Mathlib.Nat.{mul-le-mul_right}
use stendar_l.Base.Word.{u64_max, u128_max}
use stendar_l.Error.{ok}
use stendar_l.Utils.Scale.{mul_div_u64}

-- A scaled amount that is returned is the quotient rounded down.
pub mul_div_u64-ok :
    (a b d : ℕ) {q : ℕ} → mul_div_u64 a b d ≡ ok q → (0 < d) × (q ≡ a * b / d) × (q ≤ u64_max)
unfolding mul_div_u64
mul_div_u64-ok a b d h = ground arith

pub mul_div_u64-fits :
    (a b d : ℕ)
    → a * b ≤ u128_max
    → 0 < d
    → a * b / d ≤ u64_max
    → mul_div_u64 a b d ≡ ok (a * b / d)
unfolding mul_div_u64
mul_div_u64-fits a b d h p q = ground arith

pub mul-le-u128 : (a b : ℕ) → a ≤ u64_max → b ≤ u64_max → a * b ≤ u128_max
mul-le-u128 a b h k = grind arith

-- A quotient rounded down, by its two bounds.
pub div_bounds : (x d : ℕ) → 0 < d → (x / d * d ≤ x) × (x < x / d * d + d)
div_bounds x d h = grind arith

pub div-le_of_le_mul : (x d k : ℕ) → 0 < d → x ≤ k * d → x / d ≤ k
div-le_of_le_mul x d k h p = grind (arith, div_bounds x d h)

pub div_mono : (x y d : ℕ) → 0 < d → x ≤ y → x / d ≤ y / d
div_mono x y d h p = grind (arith, div_bounds x d h, div_bounds y d h)

-- A share of an amount: the part is at most the whole.
pub mul_div_u64-share :
    (a b d : ℕ)
    → a ≤ u64_max
    → b ≤ d
    → 0 < d
    → d ≤ u64_max
    → (mul_div_u64 a b d ≡ ok (a * b / d)) × (a * b / d ≤ a)
mul_div_u64-share a b d ha hb hd hu =
    let share : a * b / d ≤ a = div-le_of_le_mul (a * b) d a hd (grind arith) in
    (mul_div_u64-fits a b d (mul-le-u128 a b ha (omega arith)) hd (omega arith), share)

pub div_mod_sum : (x d : ℕ) → 0 < d → (x ≡ x / d * d + x % d) × (x % d < d)
div_mod_sum x d h = grind arith

-- A factor can be dropped from a bound that is strict by less than one of it.
pub le_of_mul_lt : (s c d : ℕ) → s * d < c * d + d → s ≤ c
le_of_mul_lt s c d h = elim (dec_le s c) [ yes p ↦ p | no p ↦ absurd (too_far (omega arith)) ]
  where
    too_far : c + 1 ≤ s → ⊥
    too_far above = omega (arith, mul-le-mul_right d above)
