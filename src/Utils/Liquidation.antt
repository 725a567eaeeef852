-- ===== src/Utils/Liquidation.antt =====
-- programs/stendar/src/utils/liquidation.rs: the health of a contract, and what is seized.
pub mod Seizure
use stendar_l.Base.{ℕ, ◌+◌, ◌%◌, ltb, leb, ◌==◌, if◌then◌else◌}
use stendar_l.Base.Word.{u32_max, u128_max, checked_add, checked_mul, checked_div, saturating_add}
use stendar_l.Error.{StendarError, Result, ok, ◌>>=◌, ◌>>◌, ok_or, require}
use stendar_l.Utils.Scale.{safe_u128_to_u64}

pub data HealthStatus : Type 0 where
  healthy partial_liquidation full_liquidation : HealthStatus

-- `check_health`
unfoldable pub check_health : ℕ → ℕ → ℕ → HealthStatus
check_health current_ltv_bps ltv_floor_bps liquidation_buffer_bps =
    if ltv_floor_bps == 0
    then HealthStatus.healthy
    else if leb current_ltv_bps ltv_floor_bps
    then HealthStatus.full_liquidation
    else if leb current_ltv_bps (saturating_add u32_max ltv_floor_bps liquidation_buffer_bps)
    then HealthStatus.partial_liquidation
    else HealthStatus.healthy

-- The quotient rounded up, as `calculate_collateral_to_seize` computes it.
unfoldable pub ceil_div_u128 : ℕ → ℕ → Result ℕ
ceil_div_u128 numerator denominator = do
  quotient ← ok_or (checked_div numerator denominator) StendarError.arithmetic_overflow
  if numerator % denominator == 0
      then ok quotient
      else ok_or (checked_add u128_max quotient 1) StendarError.arithmetic_overflow

-- `calculate_collateral_to_seize`
unfoldable pub calculate_collateral_to_seize : ℕ → ℕ → ℕ → ℕ → Result ℕ
calculate_collateral_to_seize repay_amount_usdc collateral_amount collateral_value_usdc fee_bps = do
  require (ltb 0 collateral_value_usdc) StendarError.insufficient_collateral
  with_fee ←
      ok_or (checked_mul u128_max repay_amount_usdc (10_000 + fee_bps))
        StendarError.arithmetic_overflow
  numerator ←
      ok_or (checked_mul u128_max with_fee collateral_amount) StendarError.arithmetic_overflow
  denominator ←
      ok_or (checked_mul u128_max collateral_value_usdc 10_000) StendarError.arithmetic_overflow
  result ← ceil_div_u128 numerator denominator
  safe_u128_to_u64 result
