-- ===== src/Base/Word.antt =====
-- Checked machine arithmetic, as Rust's `checked_*` and `saturating_*`. A word is a plain number;
-- `none` is the overflow. Time stamps are `i64`, so integers.
use Prim.Native.Nat.{ℕ, suc, ◌+◌, ◌-◌, ◌*◌, ◌/◌, ◌^◌}
use mathlib.Core.Bool.{Bool, ◌&&◌}
use mathlib.Core.Option.{Option, none, some}
use stendar_l.Base.Tests.{ltb, leb, if◌then◌else◌}
use stendar_l.Base.Int.{ℤ, pos, negsuc, ltb_ℤ, leb_ℤ}

abbrev pub u16_max : ℕ
u16_max = 2 ^ 16 - 1

abbrev pub u32_max : ℕ
u32_max = 2 ^ 32 - 1

abbrev pub u64_max : ℕ
u64_max = 2 ^ 64 - 1

abbrev pub u128_max : ℕ
u128_max = 2 ^ 128 - 1

abbrev pub i64_max : ℤ
i64_max = pos (2 ^ 63 - 1)

abbrev pub i64_min : ℤ
i64_min = negsuc (2 ^ 63 - 1)

-- `T::try_from(n)` for the unsigned type whose largest value is `top`.
abbrev pub try_from : ℕ → ℕ → Option ℕ
try_from top n = if leb n top then some n else none

abbrev pub checked_add : ℕ → ℕ → ℕ → Option ℕ
checked_add top a b = try_from top (a + b)

abbrev pub checked_sub : ℕ → ℕ → Option ℕ
checked_sub a b = if leb b a then some (a - b) else none

abbrev pub checked_mul : ℕ → ℕ → ℕ → Option ℕ
checked_mul top a b = try_from top (a * b)

abbrev pub checked_div : ℕ → ℕ → Option ℕ
checked_div a b = if ltb 0 b then some (a / b) else none

abbrev pub saturating_add : ℕ → ℕ → ℕ → ℕ
saturating_add top a b = if leb (a + b) top then a + b else top

abbrev pub saturating_mul : ℕ → ℕ → ℕ → ℕ
saturating_mul top a b = if leb (a * b) top then a * b else top

-- `-` on ℕ stops at 0, which is what `saturating_sub` does.
abbrev pub saturating_sub : ℕ → ℕ → ℕ
saturating_sub a b = a - b

abbrev pub fits_i64 : ℤ → Bool
fits_i64 a = leb_ℤ i64_min a && leb_ℤ a i64_max

abbrev pub checked_i64 : ℤ → Option ℤ
checked_i64 a = if fits_i64 a then some a else none

abbrev pub saturating_i64 : ℤ → ℤ
saturating_i64 a = if ltb_ℤ a i64_min then i64_min else if ltb_ℤ i64_max a then i64_max else a

-- `a as u128` for a signed `a`.
abbrev pub as_u128 : ℤ → ℕ
as_u128 (pos n) = n
as_u128 (negsuc n) = 2 ^ 128 - suc n
