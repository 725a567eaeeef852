-- ===== src/Utils/Fees.antt =====
-- programs/stendar/src/utils/fees.rs: protocol fees, and the operations fund of a contract.
pub mod Rates
pub mod Operations
use stendar_l.Base.{ℕ, ◌*◌, ◌/◌, ◌%◌, not, Option, min, max, ltb, leb, ◌==◌, ◌||◌, if◌then◌else◌}
use stendar_l.Base.Word.{u16_max, u32_max, u64_max, checked_add, checked_mul}
use stendar_l.Error.{StendarError, Result, ok, ◌>>=◌, ◌>>◌, ok_or, require}
use stendar_l.State.Enums.{
  PaymentFrequency, InterestPaymentType, PrincipalPaymentType, is_collateral_transfer,
  is_collateral_deduction, frequency_seconds,
}
use stendar_l.Utils.Scale.{mul_div_u64}

abbrev pub secondary_market_fee_bps : ℕ
secondary_market_fee_bps = 10

abbrev pub min_platform_fee : ℕ
min_platform_fee = 1_000_000

abbrev pub tx_fee_estimate : ℕ
tx_fee_estimate = 10_000

abbrev pub max_lenders_per_tx : ℕ
max_lenders_per_tx = 14

abbrev pub bps_denominator : ℕ
bps_denominator = 10_000

abbrev pub tenths_of_bps_denominator : ℕ
tenths_of_bps_denominator = 100_000

abbrev pub frontend_fee_share_bps : ℕ
frontend_fee_share_bps = 8_000

abbrev pub prepayment_fee_bps : ℕ
prepayment_fee_bps = 200

-- `calculate_fee_tenths_bps`
unfoldable pub calculate_fee_tenths_bps : ℕ → ℕ → Result ℕ
calculate_fee_tenths_bps amount fee_tenths_bps =
    if amount == 0 || fee_tenths_bps == 0
    then ok 0
    else mul_div_u64 amount fee_tenths_bps tenths_of_bps_denominator

-- `calculate_frontend_share`
unfoldable pub calculate_frontend_share : ℕ → Result ℕ
calculate_frontend_share total_fee =
    if total_fee == 0 then ok 0 else mul_div_u64 total_fee frontend_fee_share_bps bps_denominator

-- `calculate_fee_with_bps`
unfoldable pub calculate_fee_with_bps : ℕ → ℕ → ℕ → ℕ → Result ℕ
calculate_fee_with_bps amount fee_bps min_fee max_fee = do
  pct_fee ← mul_div_u64 amount fee_bps bps_denominator
  ok (min (max pct_fee min_fee) max_fee)

-- `calculate_prepayment_fee`
unfoldable pub calculate_prepayment_fee : ℕ → Result ℕ
calculate_prepayment_fee principal_amount =
    mul_div_u64 principal_amount prepayment_fee_bps bps_denominator

-- `calculate_secondary_market_fee`
unfoldable pub calculate_secondary_market_fee : ℕ → Result ℕ
unfolding calculate_fee_with_bps
calculate_secondary_market_fee amount =
    calculate_fee_with_bps amount secondary_market_fee_bps min_platform_fee u64_max

-- `ceil_div_u16`
unfoldable pub ceil_div_u16 : ℕ → ℕ → Result ℕ
ceil_div_u16 n d = do
  require (not (d == 0)) StendarError.invalid_payment_amount
  if n % d == 0
      then ok (n / d)
      else ok_or (checked_add u16_max (n / d) 1) StendarError.arithmetic_overflow

-- `frequency_days`
unfoldable pub frequency_days : PaymentFrequency → ℕ
frequency_days freq = frequency_seconds freq / (24 * 60 * 60)

-- The two counts of `estimate_total_operations`.
interest_operations : ℕ → InterestPaymentType → PaymentFrequency → ℕ
unfolding frequency_days
interest_operations term_days payment freq =
    if is_collateral_transfer payment then term_days / max (frequency_days freq) 1 else 0

principal_operations : ℕ → PrincipalPaymentType → Option PaymentFrequency → Result ℕ
unfolding frequency_days
principal_operations term_days payment frequency =
    if is_collateral_deduction payment
    then (do
      freq ← ok_or frequency StendarError.invalid_payment_amount
      ok (term_days / max (frequency_days freq) 1))
    else ok 0

-- `estimate_total_operations`
unfoldable pub estimate_total_operations :
    ℕ
    → InterestPaymentType
    → PrincipalPaymentType
    → PaymentFrequency
    → Option PaymentFrequency
    → Result ℕ
unfolding interest_operations principal_operations
estimate_total_operations term_days interest principal interest_freq principal_freq = do
  principal_ops ← principal_operations term_days principal principal_freq
  ok_or (checked_add u32_max (interest_operations term_days interest interest_freq) principal_ops)
      StendarError.arithmetic_overflow

-- `calculate_operations_fund_with_rent_exempt_min`, the total and the estimated operations.
unfoldable pub calculate_operations_fund_with_rent_exempt_min :
    ℕ
    → InterestPaymentType
    → PrincipalPaymentType
    → PaymentFrequency
    → Option PaymentFrequency
    → ℕ
    → ℕ
    → Result (ℕ × ℕ)
calculate_operations_fund_with_rent_exempt_min term_days interest principal interest_freq
      principal_freq max_lenders rent_exempt_min =
    do
      estimated_ops ←
          estimate_total_operations term_days interest principal interest_freq principal_freq
      tx_batches ← ceil_div_u16 max_lenders max_lenders_per_tx
      total_txs ←
          ok_or (checked_mul u64_max estimated_ops tx_batches) StendarError.arithmetic_overflow
      operations_cost ←
          ok_or (checked_mul u64_max total_txs tx_fee_estimate) StendarError.arithmetic_overflow
      total ←
          ok_or (checked_add u64_max rent_exempt_min operations_cost)
            StendarError.arithmetic_overflow
      ok (total, estimated_ops)

-- `calculate_reimbursement`
unfoldable pub calculate_reimbursement : ℕ → ℕ → Result ℕ
calculate_reimbursement max_lenders actual_lenders = do
  require (ltb 0 max_lenders) StendarError.invalid_max_lenders
  require (ltb 0 actual_lenders) StendarError.invalid_payment_amount
  require (leb actual_lenders max_lenders) StendarError.invalid_payment_amount
  tx_batches ← ceil_div_u16 actual_lenders max_lenders_per_tx
  ok_or (checked_mul u64_max tx_batches tx_fee_estimate) StendarError.arithmetic_overflow
