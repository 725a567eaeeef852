-- ===== src/Utils/Oracle.antt =====
-- programs/stendar/src/utils/oracle.rs: the price of the collateral and the ratio to the loan. The
-- price account is read by the Pyth SDK, which is not part of the repository: `PriceReader` stands
-- for `parse_pyth_price_from_data` and the owner test of `parse_pyth_price`, in a build without the
-- feature `testing`.
use stendar_l.Base.{ℕ, suc, ◌^◌, Option, ltb, leb, if◌then◌else◌}
use stendar_l.Base.Int.{ℤ, pos, negsuc, pos_part, ltb_ℤ, leb_ℤ, ◌-ℤ◌}
use stendar_l.Base.Word.{
  u32_max, u64_max, u128_max, try_from, checked_mul, checked_div, checked_i64,
}
use stendar_l.Error.{StendarError, Result, ok, err, ◌>>=◌, ◌>>◌, ok_or, require}
use stendar_l.State.Contract.{Pubkey}

-- Without the feature `mainnet`.
abbrev pub max_price_age_draw : ℕ
max_price_age_draw = 120

abbrev pub max_confidence_bps_standard : ℕ
max_confidence_bps_standard = 200

abbrev pub usdc_decimals : ℕ
usdc_decimals = 6

pub record ParsedPythPrice : Type 0 where
  pub price : ℤ
  pub conf : ℕ
  pub exponent : ℤ
  pub publish_time : ℤ

-- What the SDK reads from a price account; `none` if it is no account of the price program, or its
-- bytes are no price update.
abbrev pub PriceReader : Type 0
PriceReader = Pubkey → Option ParsedPythPrice

-- `pow10_u128`
unfoldable pub pow10_u128 : ℕ → Result ℕ
pow10_u128 exp = if ltb exp 39 then ok (10 ^ exp) else err StendarError.oracle_calculation_overflow

-- `validate_price_freshness`
unfoldable pub validate_price_freshness : ℤ → ℤ → ℕ → Result (Unit {0})
validate_price_freshness price_timestamp current_timestamp max_age_seconds = do
  age ← ok_or (checked_i64 (current_timestamp -ℤ price_timestamp)) StendarError.oracle_price_stale
  require (leb_ℤ (pos 0) age) StendarError.oracle_price_stale
  require (leb (pos_part age) max_age_seconds) StendarError.oracle_price_stale

-- `get_price_in_usdc_at_timestamp`
unfoldable pub get_price_in_usdc : PriceReader → Pubkey → ℕ → ℕ → ℤ → Result (ℕ × ℤ)
get_price_in_usdc read price_feed_account max_age_seconds max_confidence_bps now = do
  parsed ← ok_or (read price_feed_account) StendarError.oracle_price_unavailable
  validate_price_freshness parsed.publish_time now max_age_seconds
  require (ltb_ℤ (pos 0) parsed.price) StendarError.oracle_price_negative
  scaled ←
      ok_or (checked_mul u128_max (pos_part parsed.price) max_confidence_bps)
        StendarError.oracle_calculation_overflow
  max_conf ← ok_or (checked_div scaled 10_000) StendarError.oracle_calculation_overflow
  require (leb parsed.conf max_conf) StendarError.oracle_price_unavailable
  ok (pos_part parsed.price, parsed.exponent)

-- The factors that the exponent of the price puts on the numerator and on the denominator.
exponent_scales : ℤ → Result (ℕ × ℕ)
exponent_scales (pos n) = do scale ← pow10_u128 n; ok (scale, 1)
exponent_scales (negsuc n) = do scale ← pow10_u128 (suc n); ok (1, scale)

-- `calculate_collateral_value_in_usdc`
unfoldable pub calculate_collateral_value_in_usdc : ℕ → ℕ → ℕ → ℤ → Result ℕ
unfolding exponent_scales
calculate_collateral_value_in_usdc collateral_amount collateral_decimals price price_exponent = do
  usdc_scale ← pow10_u128 usdc_decimals
  collateral_scale ← pow10_u128 collateral_decimals
  at_price ←
      ok_or (checked_mul u128_max collateral_amount price) StendarError.oracle_calculation_overflow
  numerator ←
      ok_or (checked_mul u128_max at_price usdc_scale) StendarError.oracle_calculation_overflow
  scales ← exponent_scales price_exponent
  denominator ←
      ok_or (checked_mul u128_max collateral_scale scales.1)
        StendarError.oracle_calculation_overflow
  scaled ← ok_or (checked_mul u128_max numerator scales.0) StendarError.oracle_calculation_overflow
  value ← ok_or (checked_div scaled denominator) StendarError.oracle_calculation_overflow
  ok_or (try_from u64_max value) StendarError.oracle_calculation_overflow

-- `calculate_ltv_bps`
unfoldable pub calculate_ltv_bps : ℕ → ℕ → Result ℕ
calculate_ltv_bps collateral_value_usdc loan_amount_usdc = do
  require (ltb 0 loan_amount_usdc) StendarError.invalid_payment_amount
  scaled ←
      ok_or (checked_mul u128_max collateral_value_usdc 10_000)
        StendarError.oracle_calculation_overflow
  ltv_bps ← ok_or (checked_div scaled loan_amount_usdc) StendarError.oracle_calculation_overflow
  ok_or (try_from u32_max ltv_bps) StendarError.oracle_calculation_overflow
