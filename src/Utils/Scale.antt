-- ===== src/Utils/Scale.antt =====
-- The arithmetic of programs/stendar/src/utils/mod.rs, and the step that every proportional amount
-- takes: a product and a quotient in `u128`, narrowed to `u64`.
pub mod Exact
use stendar_l.Base.{ℕ, ltb, ◌==◌}
use stendar_l.Base.Word.{u64_max, u128_max, try_from, checked_mul, checked_div, saturating_sub}
use stendar_l.Error.{StendarError, Result, ◌>>=◌, ◌>>◌, ok_or, require}
use stendar_l.State.Contract.{current_account_version}

-- `safe_u128_to_u64`
unfoldable pub safe_u128_to_u64 : ℕ → Result ℕ
safe_u128_to_u64 value = ok_or (try_from u64_max value) StendarError.arithmetic_overflow

-- `a.checked_mul(b).and_then(|v| v.checked_div(d)).ok_or(overflow)?`, in `u128`.
unfoldable pub mul_div : ℕ → ℕ → ℕ → Result ℕ
mul_div a b d = do
  product ← ok_or (checked_mul u128_max a b) StendarError.arithmetic_overflow
  ok_or (checked_div product d) StendarError.arithmetic_overflow

-- The same, narrowed to `u64`.
unfoldable pub mul_div_u64 : ℕ → ℕ → ℕ → Result ℕ
unfolding mul_div safe_u128_to_u64
mul_div_u64 a b d = do value ← mul_div a b d; safe_u128_to_u64 value

-- `calculate_proportional_collateral`
unfoldable pub calculate_proportional_collateral : ℕ → ℕ → ℕ → Result ℕ
calculate_proportional_collateral lender_contribution total_funded total_collateral = do
  require (ltb 0 total_funded) StendarError.invalid_contribution_amount
  mul_div_u64 lender_contribution total_collateral total_funded

-- `saturating_sub_with_log`, less the log line.
unfoldable pub saturating_sub_with_log : ℕ → ℕ → ℕ
saturating_sub_with_log value amount = saturating_sub value amount

-- `require_current_version`
unfoldable pub require_current_version : ℕ → Result (Unit {0})
require_current_version version =
    require (version == current_account_version) StendarError.account_needs_migration
