-- ===== src/Utils/Valuation.antt =====
-- programs/stendar/src/utils/trading.rs: may a position be traded, and what is it worth.
use stendar_l.Base.{ℕ, ◌*◌, ◌/◌, ◌%◌, ◌^◌, Bool, false, not, ◌&&◌, ltb, leb, min, if◌then◌else◌}
use stendar_l.Base.Int.{ℤ, pos, pos_part, ◌+ℤ◌, ◌-ℤ◌, ltb_ℤ, quot_ℤ}
use stendar_l.Base.Word.{u16_max, u64_max, checked_add, checked_i64, saturating_i64}
use stendar_l.Error.{StendarError, Result, ok, ◌>>=◌, ◌>>◌, ok_or, require}
use stendar_l.State.Enums.{ContractStatus, LoanType, status_eq, is_committed}
use stendar_l.State.Contract.{DebtContract}
use stendar_l.State.Accounts.{LenderContribution}
use stendar_l.Utils.Scale.{mul_div, mul_div_u64}

abbrev pub min_listing_amount : ℕ
min_listing_amount = 10_000

abbrev pub seconds_per_day : ℕ
seconds_per_day = 24 * 60 * 60

-- `PositionValuation` of programs/stendar/src/state/trading.rs.
pub record PositionValuation : Type 0 where
  pub fair_value : ℕ
  pub remaining_interest : ℕ
  pub remaining_principal : ℕ
  pub risk_adjustment : ℕ
  pub days_remaining : ℕ

-- The time left until the end of the term, in seconds; `term_days` is a `u32`.
unfoldable pub time_remaining : DebtContract → ℤ → Result ℤ
time_remaining c current_time = do
  term_seconds ←
      ok_or (checked_i64 (pos (c.term_days * seconds_per_day))) StendarError.arithmetic_overflow
  contract_end ← ok_or (checked_i64 (c.created_at +ℤ term_seconds)) StendarError.arithmetic_overflow
  ok (saturating_i64 (contract_end -ℤ current_time))

-- The tests of `validate_trade_conditions` that read no clock.
unfoldable pub is_tradeable_position : DebtContract → LenderContribution → Bool
is_tradeable_position c contribution =
    leb min_listing_amount contribution.contribution_amount
    && leb c.ltv_ratio 18_000
    && not contribution.is_refunded

-- `validate_trade_conditions`
unfoldable pub validate_trade_conditions : DebtContract → LenderContribution → ℤ → Result Bool
unfolding time_remaining is_tradeable_position
validate_trade_conditions c contribution current_time =
    if not (status_eq c.status ContractStatus.active)
    then ok false
    else if is_committed c.loan_type
    then (do
      remaining ← time_remaining c current_time
      if ltb_ℤ remaining (pos (30 * 24 * 60 * 60))
          then ok false
          else ok (is_tradeable_position c contribution))
    else ok (is_tradeable_position c contribution)

abbrev base_rate : LoanType → ℕ
base_rate LoanType.committed = 10_000
base_rate LoanType.demand = 9_800

-- `calculate_risk_adjustment`
unfoldable pub calculate_risk_adjustment : ℕ → LoanType → ℕ → ℕ
calculate_risk_adjustment days_remaining loan_type collateralization_bps =
    let time_adjustment : ℕ =
      if ltb 365 days_remaining then 9_900 else if ltb 180 days_remaining then 9_950 else 10_000 in
    let collateralization_adjustment : ℕ =
      if ltb collateralization_bps 6_000
      then 9_800
      else if ltb collateralization_bps 8_000
      then 9_900
      else 10_000 in
    min (base_rate loan_type * time_adjustment * collateralization_adjustment / 100_000_000) u16_max

-- The whole days left; `as u32` keeps the low 32 bits of what is not negative.
unfoldable pub days_remaining : DebtContract → ℤ → Result ℕ
unfolding time_remaining
days_remaining c current_time =
    if is_committed c.loan_type
    then (do
      remaining ← time_remaining c current_time
      ok (pos_part (quot_ℤ remaining seconds_per_day) % 2 ^ 32))
    else ok c.term_days

-- `calculate_position_value`
unfoldable pub calculate_position_value :
    LenderContribution → DebtContract → ℤ → Result PositionValuation
calculate_position_value contribution c current_time = do
  tradeable ← validate_trade_conditions c contribution current_time
  require tradeable StendarError.position_not_tradeable
  days ← days_remaining c current_time
  require (ltb 0 c.funded_amount) StendarError.invalid_position_valuation
  lender_share ← mul_div contribution.contribution_amount 1_000_000 c.funded_amount
  principal ← mul_div_u64 c.outstanding_balance lender_share 1_000_000
  annual ← mul_div_u64 principal c.interest_rate 10_000
  interest ← mul_div_u64 annual days 365
  gross ← ok_or (checked_add u64_max principal interest) StendarError.arithmetic_overflow
  let risk = calculate_risk_adjustment days c.loan_type c.ltv_ratio
  fair ← mul_div_u64 gross risk 10_000
  ok (record {
    fair_value = fair;
    remaining_interest = interest;
    remaining_principal = principal;
    risk_adjustment = risk;
    days_remaining = days;
  })
