-- ===== src/Utils/Interest/Schedule.antt =====
-- Scheduled principal payments (`process_scheduled_principal_payments` of
-- programs/stendar/src/utils/interest.rs).
use native.Mathlib.Nat.{div-eq_of_lt}
use stendar_l.Base.{ℕ, ◌+◌, ◌*◌, ◌/◌, ◌≤◌, ◌<◌, ◌≡◌, ◌≢◌, ◌⊎◌, inl, inr, arith, Option, none, some}
use stendar_l.Base.Int.{ℤ, pos, pos_part, ◌+ℤ◌, ◌-ℤ◌, ◌≤ℤ◌, ◌<ℤ◌, int_laws, -ℤ_nonneg, eq_of_parts}
use stendar_l.Error.{ok}
use stendar_l.Utils.Scale.Exact.{div_bounds}
use stendar_l.State.Enums.{PrincipalPaymentType, PaymentFrequency, frequency_seconds}
use stendar_l.State.Contract.{DebtContract}
use stendar_l.Utils.Interest.{
  process_scheduled_principal_payments, pay_scheduled, pay_elapsed_periods, elapsed_since,
}

-- What a scheduled payment leaves true of the principal.
pub record PaidBetween (c c' : DebtContract) : Type 0 where
  pub conserved :
      c'.outstanding_balance + c'.total_principal_paid
      ≡ c.outstanding_balance + c.total_principal_paid
  pub within : c'.total_principal_paid ≤ c.target_amount
  pub grows : c.total_principal_paid ≤ c'.total_principal_paid

pay_elapsed_periods-PaidBetween :
    (c : DebtContract) (since : ℤ) (seconds : ℕ) (c' : DebtContract)
    → c.total_principal_paid ≤ c.target_amount
    → pay_elapsed_periods c since seconds ≡ ok c'
    → PaidBetween c c'
unfolding pay_elapsed_periods
pay_elapsed_periods-PaidBetween c since seconds c' p h = ground arith

pay_scheduled-PaidBetween :
    (payment : PrincipalPaymentType) (frequency : Option PaymentFrequency) (c : DebtContract)
    (now : ℤ) (c' : DebtContract)
    → c.total_principal_paid ≤ c.target_amount
    → pay_scheduled payment frequency c now ≡ ok c'
    → PaidBetween c c'
unfolding pay_scheduled elapsed_since
pay_scheduled-PaidBetween PrincipalPaymentType.no_fixed_payment frequency c now c' p h =
    ground arith
pay_scheduled-PaidBetween PrincipalPaymentType.collateral_deduction none c now c' p h = ground arith
pay_scheduled-PaidBetween PrincipalPaymentType.collateral_deduction (some f) c now c' p h = ground (
  arith,
  pay_elapsed_periods-PaidBetween c (now -ℤ c.last_principal_payment) (frequency_seconds f) c',
)

-- A scheduled payment moves principal from the outstanding balance to what is paid: their sum is
-- kept, what is paid does not shrink, and it never passes the target.
pub process_scheduled_principal_payments-PaidBetween :
    (c : DebtContract) (now : ℤ) (c' : DebtContract)
    → c.total_principal_paid ≤ c.target_amount
    → process_scheduled_principal_payments c now ≡ ok c'
    → PaidBetween c c'
unfolding process_scheduled_principal_payments
process_scheduled_principal_payments-PaidBetween c now c' p h =
    ground
      (arith, pay_scheduled-PaidBetween c.principal_payment_type c.principal_frequency c now c' p)

pay_elapsed_periods-last :
    (c : DebtContract) (since : ℤ) (seconds : ℕ) (c' : DebtContract)
    → pay_elapsed_periods c since seconds ≡ ok c'
    → c'.last_principal_payment
      ≡ c.last_principal_payment +ℤ pos (pos_part since / seconds * seconds)
unfolding pay_elapsed_periods
pay_elapsed_periods-last c since seconds c' h = ground arith

advance_current :
    (last now : ℤ) (s : ℕ)
    → 0 < s
    → last ≤ℤ now
    → let last' = last +ℤ pos (pos_part (now -ℤ last) / s * s) in
      (last' ≤ℤ now) × (now <ℤ last' +ℤ pos s)
advance_current last now s h le =
    omega (int_laws, div_bounds (pos_part (now -ℤ last)) s h, -ℤ_nonneg now last le)

elapsed_since-ok : (now last since : ℤ) → elapsed_since now last ≡ ok since → since ≡ now -ℤ last
unfolding elapsed_since
elapsed_since-ok now last since h = ground arith

-- The whole periods between two moments.
abbrev pub periods_between : ℤ → ℤ → ℕ → ℕ
periods_between last now seconds = pos_part (now -ℤ last) / seconds

frequency_seconds_pos : (f : PaymentFrequency) → 0 < frequency_seconds f
frequency_seconds_pos f = ground arith

due_cases :
    (f : PaymentFrequency) (c : DebtContract) (now : ℤ) (c' : DebtContract)
    → 0 < frequency_seconds f
    → pay_scheduled PrincipalPaymentType.collateral_deduction (some f) c now ≡ ok c'
    → (c' ≡ c) × (pos_part (now -ℤ c.last_principal_payment) < frequency_seconds f)
      ⊎ (pay_elapsed_periods c (now -ℤ c.last_principal_payment) (frequency_seconds f) ≡ ok c')
unfolding pay_scheduled elapsed_since
due_cases f c now c' p h = ground arith

no_period : (last : ℤ) (t s : ℕ) → t < s → last ≡ last +ℤ pos (t / s * s)
no_period last t s h =
    let none_passed : t / s ≡ 0 = div-eq_of_lt h in
    let nothing : t / s * s ≡ 0 = rw none_passed (omega arith) in
    rw nothing (eq_of_parts last (last +ℤ pos 0) (omega int_laws))

pay_due-last :
    (f : PaymentFrequency) (c : DebtContract) (now : ℤ) (c' : DebtContract)
    → pay_scheduled PrincipalPaymentType.collateral_deduction (some f) c now ≡ ok c'
    → c'.last_principal_payment
      ≡ c.last_principal_payment
        +ℤ pos (
            periods_between c.last_principal_payment now (frequency_seconds f)
            * frequency_seconds f)
pay_due-last f c now c' h =
    let since = now -ℤ c.last_principal_payment in
    elim (due_cases f c now c' (frequency_seconds_pos f) h) [
      | inl (same, early) ↦
          rw same (no_period c.last_principal_payment (pos_part since) (frequency_seconds f) early)
      | inr paid ↦ pay_elapsed_periods-last c since (frequency_seconds f) c' paid
    ]

-- Where principal is paid by deduction at a frequency, and the moment of the last payment is stamped
-- and not in the future, a successful run advances that moment by as many whole periods as have
-- passed since: afterwards it has not passed the present, and less than one period is left.
pub process_scheduled_principal_payments-current :
    (c : DebtContract) (now : ℤ) (c' : DebtContract) (f : PaymentFrequency)
    → process_scheduled_principal_payments c now ≡ ok c'
    → c.principal_payment_type ≡ PrincipalPaymentType.collateral_deduction
    → c.principal_frequency ≡ some f
    → c.last_principal_payment ≢ pos 0
    → c.last_principal_payment ≤ℤ now
    → (c'.last_principal_payment
        ≡ c.last_principal_payment
          +ℤ pos (
              periods_between c.last_principal_payment now (frequency_seconds f)
              * frequency_seconds f))
      × (c'.last_principal_payment ≤ℤ now)
      × (now <ℤ c'.last_principal_payment +ℤ pos (frequency_seconds f))
unfolding process_scheduled_principal_payments
process_scheduled_principal_payments-current c now c' f h deduct some_f started le =
    let last = pay_due-last f c now c' (ground arith) in
    let current =
      advance_current c.last_principal_payment now (frequency_seconds f) (frequency_seconds_pos f)
        le in
    (last, rw last current.0, rw last current.1)
