-- ===== src/Utils/Interest.antt =====
-- programs/stendar/src/utils/interest.rs: what accrues on a contract as time passes.
pub mod Windows
pub mod Accrual
pub mod Standby
pub mod Schedule
use stendar_l.Base.{
  ℕ, ◌*◌, ◌/◌, Bool, not, ◌&&◌, ◌||◌, Option, none, some, min, ltb, ◌==◌, if◌then◌else◌,
}
use stendar_l.Base.Int.{ℤ, pos, pos_part, ◌+ℤ◌, ◌-ℤ◌, ltb_ℤ, leb_ℤ, is_zero}
use stendar_l.Base.Word.{
  u64_max, u128_max, checked_add, checked_sub, checked_mul, checked_div, checked_i64,
  saturating_mul, saturating_sub, as_u128,
}
use stendar_l.Error.{StendarError, Result, ok, ◌>>=◌, ◌>>◌, ok_or, require}
use stendar_l.State.Enums.{
  ContractStatus, InterestPaymentType, PrincipalPaymentType, PaymentFrequency, status_eq,
  frequency_seconds,
}
use stendar_l.State.Contract.{DebtContract}
use stendar_l.Utils.Scale.{safe_u128_to_u64, mul_div_u64}

abbrev pub max_outstanding_balance_multiplier : ℕ
max_outstanding_balance_multiplier = 10

abbrev pub seconds_per_year : ℕ
seconds_per_year = 365 * 24 * 60 * 60

abbrev pub annualized_bps_denominator : ℕ
annualized_bps_denominator = seconds_per_year * 10_000

abbrev pub seconds_per_day : ℕ
seconds_per_day = 24 * 60 * 60

-- amount * rate * time / (a year in seconds, in basis points): the chain that `calculate_interest`
-- and `calculate_standby_fee` both compute.
unfoldable pub annualized : ℕ → ℕ → ℤ → Result ℕ
annualized amount rate time_elapsed = do
  at_rate ← ok_or (checked_mul u128_max amount rate) StendarError.arithmetic_overflow
  over_time ←
      ok_or (checked_mul u128_max at_rate (as_u128 time_elapsed)) StendarError.arithmetic_overflow
  value ← ok_or (checked_div over_time annualized_bps_denominator) StendarError.arithmetic_overflow
  safe_u128_to_u64 value

-- `calculate_interest`
unfoldable pub calculate_interest : ℕ → ℕ → ℤ → Result ℕ
calculate_interest principal rate time_elapsed =
    if leb_ℤ time_elapsed (pos 0) || principal == 0
    then ok 0
    else annualized principal rate time_elapsed

-- `calculate_standby_fee`
unfoldable pub calculate_standby_fee : ℕ → ℕ → ℤ → Result ℕ
calculate_standby_fee undrawn_amount standby_fee_rate time_elapsed =
    if leb_ℤ time_elapsed (pos 0) || undrawn_amount == 0 || standby_fee_rate == 0
    then ok 0
    else annualized undrawn_amount standby_fee_rate time_elapsed

-- `checked_sub` of two time stamps, with the error that every caller maps it to.
unfoldable pub elapsed_since : ℤ → ℤ → Result ℤ
elapsed_since current_time earlier =
    ok_or (checked_i64 (current_time -ℤ earlier)) StendarError.arithmetic_overflow

-- The branch of `process_automatic_interest` for revolving contracts.
unfoldable pub accrue_revolving : DebtContract → ℤ → ℤ → Result DebtContract
accrue_revolving c time_elapsed current_time = do
  interest ← calculate_interest c.drawn_amount c.interest_rate time_elapsed
  accrued ← ok_or (checked_add u64_max c.accrued_interest interest) StendarError.arithmetic_overflow
  ok (record c {
    accrued_interest =
        min accrued (saturating_mul u64_max c.credit_limit max_outstanding_balance_multiplier);
    last_interest_update = current_time;
  })

-- The branch for term loans, by how the interest is paid.
accrue_term_by : InterestPaymentType → DebtContract → ℤ → ℤ → Result DebtContract
accrue_term_by InterestPaymentType.outstanding_balance c time_elapsed current_time = do
  interest ← calculate_interest c.outstanding_balance c.interest_rate time_elapsed
  balance ←
      ok_or (checked_add u64_max c.outstanding_balance interest) StendarError.arithmetic_overflow
  ok (record c {
    outstanding_balance =
        min balance (saturating_mul u64_max c.target_amount max_outstanding_balance_multiplier);
    last_interest_update = current_time;
  })
accrue_term_by InterestPaymentType.collateral_transfer c time_elapsed current_time = do
  interest ← calculate_interest c.target_amount c.interest_rate time_elapsed
  accrued ← ok_or (checked_add u64_max c.accrued_interest interest) StendarError.arithmetic_overflow
  ok (record c { accrued_interest = accrued; last_interest_update = current_time })

unfoldable pub accrue_term : DebtContract → ℤ → ℤ → Result DebtContract
unfolding accrue_term_by
accrue_term c time_elapsed current_time =
    accrue_term_by c.interest_payment_type c time_elapsed current_time

-- `process_automatic_interest`. The source's `if x > cap { x = cap }` is `min x cap`.
unfoldable pub process_automatic_interest : DebtContract → ℤ → Result DebtContract
unfolding elapsed_since
process_automatic_interest c current_time =
    if c.is_revolving
    then (if is_zero c.last_interest_update then ok c else (do
      time_elapsed ← elapsed_since current_time c.last_interest_update
      if leb_ℤ time_elapsed (pos 0) then ok c else accrue_revolving c time_elapsed current_time))
    else if is_zero c.last_interest_update && status_eq c.status ContractStatus.active
    then ok (record c { last_interest_update = c.created_at })
    else if is_zero c.last_interest_update
    then ok c
    else (do
      time_elapsed ← elapsed_since current_time c.last_interest_update
      if leb_ℤ time_elapsed (pos 0) then ok c else accrue_term c time_elapsed current_time)

-- `checkpoint_standby_fees`
unfoldable pub checkpoint_standby_fees : DebtContract → ℤ → Result DebtContract
unfolding elapsed_since
checkpoint_standby_fees c current_time =
    if not c.is_revolving
    then ok c
    else if c.revolving_closed
    then ok c
    else if is_zero c.last_standby_fee_update
    then ok (record c { last_standby_fee_update = current_time })
    else (do
      elapsed ← elapsed_since current_time c.last_standby_fee_update
      if leb_ℤ elapsed (pos 0) then ok c else (do
        undrawn ← ok_or (checked_sub c.credit_limit c.drawn_amount) StendarError.invariant_violation
        accrued ← calculate_standby_fee undrawn c.standby_fee_rate elapsed
        fees ←
            ok_or (checked_add u64_max c.accrued_standby_fees accrued)
              StendarError.arithmetic_overflow
        ok (record c { accrued_standby_fees = fees; last_standby_fee_update = current_time })))

-- `check_revolving_completion`
unfoldable pub check_revolving_completion : DebtContract → Bool
check_revolving_completion c =
    c.revolving_closed
    && c.drawn_amount == 0
    && c.accrued_interest == 0
    && c.accrued_standby_fees == 0

-- `calculate_recall_debt_share`
unfoldable pub calculate_recall_debt_share : ℕ → ℕ → ℕ → Result ℕ
calculate_recall_debt_share outstanding_balance funded_amount contribution_amount = do
  require (ltb 0 funded_amount) StendarError.invalid_contribution_amount
  mul_div_u64 outstanding_balance contribution_amount funded_amount

-- The principal that should be paid after a number of elapsed days, capped at the target.
unfoldable pub expected_principal : DebtContract → ℕ → Result ℕ
expected_principal c elapsed_days = do
  expected ← mul_div_u64 c.target_amount elapsed_days c.term_days
  ok (min expected c.target_amount)

-- The payment for `periods_elapsed` whole periods of `seconds` each.
unfoldable pub pay_elapsed_periods : DebtContract → ℤ → ℕ → Result DebtContract
pay_elapsed_periods c time_since_last seconds = do
  let periods_elapsed = pos_part time_since_last / seconds
  require (ltb 0 c.term_days) StendarError.invalid_payment_amount
  elapsed_days ←
      ok_or (checked_mul u64_max periods_elapsed (seconds / seconds_per_day))
        StendarError.arithmetic_overflow
  expected ← expected_principal c elapsed_days
  let due = saturating_sub expected c.total_principal_paid
  let payment = min due (saturating_sub c.target_amount c.total_principal_paid)
  balance ← ok_or (checked_sub c.outstanding_balance payment) StendarError.arithmetic_overflow
  paid ← ok_or (checked_add u64_max c.total_principal_paid payment) StendarError.arithmetic_overflow
  elapsed_seconds ←
      ok_or (checked_i64 (pos (periods_elapsed * seconds))) StendarError.arithmetic_overflow
  last ←
      ok_or (checked_i64 (c.last_principal_payment +ℤ elapsed_seconds))
        StendarError.arithmetic_overflow
  ok (record c {
    outstanding_balance = balance;
    total_principal_paid = paid;
    last_principal_payment = last;
  })

-- The branches of the `match` on how principal is paid.
pay_scheduled :
    PrincipalPaymentType → Option PaymentFrequency → DebtContract → ℤ → Result DebtContract
pay_scheduled PrincipalPaymentType.no_fixed_payment frequency c current_time = ok c
pay_scheduled PrincipalPaymentType.collateral_deduction none c current_time = ok c
pay_scheduled PrincipalPaymentType.collateral_deduction (some frequency) c current_time = do
  time_since_last ← elapsed_since current_time c.last_principal_payment
  if leb_ℤ time_since_last (pos 0)
      then ok c
      else if ltb_ℤ time_since_last (pos (frequency_seconds frequency))
      then ok c
      else pay_elapsed_periods c time_since_last (frequency_seconds frequency)

-- `process_scheduled_principal_payments`. A payment of 0 subtracts and adds 0, which is the branch
-- of the source that skips both.
unfoldable pub process_scheduled_principal_payments : DebtContract → ℤ → Result DebtContract
unfolding pay_scheduled elapsed_since
process_scheduled_principal_payments c current_time =
    if is_zero c.last_principal_payment
    then ok c
    else pay_scheduled c.principal_payment_type c.principal_frequency c current_time
