-- ===== src/Tests/Utils.antt =====
-- An instance of each result on the arithmetic of fees, interest and liquidations.
use stendar_l.Base.{
  ℕ, true, false, ◌+◌, ◌-◌, ◌*◌, ◌/◌, ◌≤◌, ◌<◌, ◌≡◌, ◌≢◌, ◌⊎◌, refl, some, none, arith, max, zero,
  suc,
}
use stendar_l.Base.Int.{ℤ, pos, negsuc, ◌+ℤ◌, ◌≤ℤ◌, ◌<ℤ◌, int_laws}
use stendar_l.Error.{ok}
use stendar_l.State.Enums.{
  PaymentFrequency, InterestPaymentType, PrincipalPaymentType, frequency_seconds,
}
use stendar_l.State.Contract.{DebtContract}
use stendar_l.Utils.Fees.{
  calculate_fee_tenths_bps, calculate_frontend_share, calculate_secondary_market_fee,
  calculate_reimbursement, calculate_operations_fund_with_rent_exempt_min, min_platform_fee,
  tx_fee_estimate,
}
use stendar_l.Utils.Fees.Rates.{calculate_fee_tenths_bps_total}
use stendar_l.Utils.Fees.Operations.{operations_fund_suffices}
use stendar_l.Utils.Interest.{
  calculate_interest, process_automatic_interest, process_scheduled_principal_payments,
  checkpoint_standby_fees,
}
use stendar_l.Utils.Interest.Windows.{calculate_interest_split}
use stendar_l.Utils.Interest.Schedule.{
  PaidBetween, process_scheduled_principal_payments-PaidBetween,
  process_scheduled_principal_payments-current, periods_between,
}
use stendar_l.Utils.Interest.Accrual.{
  process_automatic_interest_twice, process_automatic_interest_capped,
}
use stendar_l.Utils.Liquidation.{check_health, calculate_collateral_to_seize}
use stendar_l.Utils.Liquidation.Seizure.{
  calculate_collateral_to_seize_least, calculate_collateral_to_seize-le,
}
use stendar_l.Tests.Concrete.{example_contract, result_or}

calculate_fee_tenths_bps_total_example :
    (calculate_fee_tenths_bps 1_000_000 250 ≡ ok (1_000_000 * 250 / 100_000))
    × (1_000_000 * 250 / 100_000 ≤ 1_000_000)
    × (1_000_000 * 250 / 100_000 * 100_000 ≤ 1_000_000 * 250)
    × (1_000_000 * 250 < (1_000_000 * 250 / 100_000 + 1) * 100_000)
calculate_fee_tenths_bps_total_example =
    calculate_fee_tenths_bps_total 1_000_000 250 (omega arith) (omega arith)

abbrev fund : ℕ × ℕ
fund =
    result_or (0, 0)
      (calculate_operations_fund_with_rent_exempt_min 90 InterestPaymentType.collateral_transfer
        PrincipalPaymentType.collateral_deduction PaymentFrequency.weekly
        (some PaymentFrequency.monthly) 30 2_000_000)

fund_computed :
    calculate_operations_fund_with_rent_exempt_min 90 InterestPaymentType.collateral_transfer
      PrincipalPaymentType.collateral_deduction PaymentFrequency.weekly
      (some PaymentFrequency.monthly)
      30
      2_000_000
    ≡ ok (fund.0, fund.1)
unfolding calculate_operations_fund_with_rent_exempt_min stendar_l.Utils.Fees.ceil_div_u16
    stendar_l.Utils.Fees.estimate_total_operations
fund_computed = refl

abbrev reimbursed : ℕ
reimbursed = result_or 0 (calculate_reimbursement 30 15)

reimbursed_computed : calculate_reimbursement 30 15 ≡ ok reimbursed
unfolding calculate_reimbursement stendar_l.Utils.Fees.ceil_div_u16
reimbursed_computed = refl

operations_fund_suffices_example : 2_000_000 + fund.1 * reimbursed ≤ fund.0
operations_fund_suffices_example =
    operations_fund_suffices 90 InterestPaymentType.collateral_transfer
      PrincipalPaymentType.collateral_deduction PaymentFrequency.weekly
      (some PaymentFrequency.monthly) 30 2_000_000 15 {total = fund.0} {ops = fund.1}
      {r = reimbursed} fund_computed reimbursed_computed

abbrev seized : ℕ
seized = result_or 0 (calculate_collateral_to_seize 1_000 3_000 2_000 500)

seized_computed : calculate_collateral_to_seize 1_000 3_000 2_000 500 ≡ ok seized
unfolding calculate_collateral_to_seize stendar_l.Utils.Liquidation.ceil_div_u128
    stendar_l.Utils.Scale.safe_u128_to_u64
seized_computed = refl

calculate_collateral_to_seize_least_example :
    (1_000 * (10_000 + 500) * 3_000 ≤ seized * (2_000 * 10_000))
    × (seized * (2_000 * 10_000) < 1_000 * (10_000 + 500) * 3_000 + 2_000 * 10_000)
calculate_collateral_to_seize_least_example =
    calculate_collateral_to_seize_least 1_000 3_000 2_000 500 {seized = seized} seized_computed

calculate_collateral_to_seize-le_example : seized ≤ 3_000
calculate_collateral_to_seize-le_example =
    calculate_collateral_to_seize-le 1_000 3_000 2_000 500 {seized = seized} seized_computed
      (omega arith)

abbrev interest : ℕ
interest = result_or 0 (calculate_interest 1_000_000 1_200 (pos (40_000 + 50_000)))

interest_computed : calculate_interest 1_000_000 1_200 (pos (40_000 + 50_000)) ≡ ok interest
unfolding calculate_interest stendar_l.Utils.Interest.annualized
    stendar_l.Utils.Scale.safe_u128_to_u64
interest_computed = refl

calculate_interest_split_example :
    (first : ℕ) × (second : ℕ) × (calculate_interest 1_000_000 1_200 (pos 40_000) ≡ ok first)
    × (calculate_interest 1_000_000 1_200 (pos 50_000) ≡ ok second)
    × (first + second ≤ interest)
    × (interest ≤ first + second + 1)
calculate_interest_split_example =
    calculate_interest_split 1_000_000 1_200 40_000 50_000 interest interest_computed

abbrev accrued : DebtContract
accrued = result_or example_contract (process_automatic_interest example_contract (pos 87_400))

accrued_computed : process_automatic_interest example_contract (pos 87_400) ≡ ok accrued
unfolding process_automatic_interest stendar_l.Utils.Interest.accrue_revolving calculate_interest
    stendar_l.Utils.Interest.annualized stendar_l.Utils.Scale.safe_u128_to_u64
    stendar_l.Base.Int.◌-ℤ◌ stendar_l.Utils.Interest.elapsed_since
accrued_computed = refl

process_automatic_interest_twice_example :
    process_automatic_interest accrued (pos 87_400) ≡ ok accrued
process_automatic_interest_twice_example =
    process_automatic_interest_twice example_contract (pos 87_400) accrued accrued_computed
      (grind (arith, int_laws)) (grind (arith, int_laws))

-- A term loan with a monthly payment of principal.
abbrev term_loan : DebtContract
term_loan = record example_contract {
  is_revolving = false;
  outstanding_balance = 1_000;
  last_principal_payment = pos 1_000;
  principal_payment_type = PrincipalPaymentType.collateral_deduction;
  principal_frequency = some PaymentFrequency.weekly;
}

abbrev term_accrued : DebtContract
term_accrued = result_or term_loan (process_automatic_interest term_loan (pos 87_400))

term_accrued_computed : process_automatic_interest term_loan (pos 87_400) ≡ ok term_accrued
unfolding process_automatic_interest stendar_l.Utils.Interest.accrue_term calculate_interest
    stendar_l.Utils.Interest.annualized stendar_l.Utils.Scale.safe_u128_to_u64
    stendar_l.Base.Int.◌-ℤ◌ stendar_l.Utils.Interest.elapsed_since
term_accrued_computed = refl

process_automatic_interest_capped_example :
    (term_loan.outstanding_balance ≤ term_accrued.outstanding_balance)
    × (term_accrued.outstanding_balance ≤ 10 * term_accrued.target_amount)
process_automatic_interest_capped_example =
    process_automatic_interest_capped term_loan (pos 87_400) term_accrued refl (omega arith)
      (omega arith) term_accrued_computed

abbrev paid : DebtContract
paid = result_or term_loan (process_scheduled_principal_payments term_loan (pos 700_000))

paid_computed : process_scheduled_principal_payments term_loan (pos 700_000) ≡ ok paid
unfolding process_scheduled_principal_payments stendar_l.Base.Int.◌-ℤ◌ stendar_l.Base.Int.◌+ℤ◌
    stendar_l.Utils.Interest.elapsed_since stendar_l.Utils.Scale.mul_div_u64
    stendar_l.Utils.Interest.pay_elapsed_periods stendar_l.Utils.Interest.expected_principal
paid_computed = refl

process_scheduled_principal_payments-PaidBetween_example : PaidBetween term_loan paid
process_scheduled_principal_payments-PaidBetween_example =
    process_scheduled_principal_payments-PaidBetween term_loan (pos 700_000) paid (omega arith)
      paid_computed

process_scheduled_principal_payments-current_example :
    (paid.last_principal_payment
      ≡ term_loan.last_principal_payment
        +ℤ pos (
            periods_between term_loan.last_principal_payment
              (pos 700_000)
              (frequency_seconds PaymentFrequency.weekly)
            * frequency_seconds PaymentFrequency.weekly))
    × (paid.last_principal_payment ≤ℤ pos 700_000)
    × (pos 700_000
        <ℤ paid.last_principal_payment +ℤ pos (frequency_seconds PaymentFrequency.weekly))
process_scheduled_principal_payments-current_example =
    process_scheduled_principal_payments-current term_loan (pos 700_000) paid
      PaymentFrequency.weekly paid_computed refl refl (grind (arith, int_laws))
      (grind (arith, int_laws))
