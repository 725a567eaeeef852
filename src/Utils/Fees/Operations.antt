-- ===== src/Utils/Fees/Operations.antt =====
-- The operations fund of programs/stendar/src/utils/fees.rs, which the borrower pays in advance,
-- against the reimbursements that the bot draws from it.
use stendar_l.Base.{ℕ, ◌+◌, ◌*◌, ◌/◌, ◌≤◌, ◌<◌, ◌≡◌, ap, Option, arith}
use stendar_l.Base.Word.{u16_max}
use stendar_l.Error.{ok}
use stendar_l.State.Enums.{PaymentFrequency, InterestPaymentType, PrincipalPaymentType}
use stendar_l.Utils.Fees.{
  ceil_div_u16, calculate_reimbursement, calculate_operations_fund_with_rent_exempt_min,
  tx_fee_estimate, max_lenders_per_tx,
}

batches_of_14 :
    (n : ℕ) {q : ℕ} → ceil_div_u16 n max_lenders_per_tx ≡ ok q → (n ≤ q * 14) × (q * 14 < n + 14)
unfolding ceil_div_u16
batches_of_14 n h = ground arith

-- A reimbursement pays for the fewest transactions of 14 lenders that reach every lender: one fee
-- estimate for each, and it is always computed for lenders within a contract's maximum.
pub calculate_reimbursement_covers :
    (max_lenders actual : ℕ)
    → 0 < actual
    → actual ≤ max_lenders
    → max_lenders ≤ u16_max
    → (batches : ℕ) × (calculate_reimbursement max_lenders actual ≡ ok (batches * tx_fee_estimate))
      × (actual ≤ batches * 14)
      × (batches * 14 < actual + 14)
unfolding calculate_reimbursement ceil_div_u16
calculate_reimbursement_covers max_lenders actual h k u =
    ((actual + 13) / 14, ground arith, omega arith, omega arith)

fund_parts :
    (term_days : ℕ) (interest : InterestPaymentType) (principal : PrincipalPaymentType)
    (interest_freq : PaymentFrequency) (principal_freq : Option PaymentFrequency)
    (max_lenders rent : ℕ) {total ops : ℕ}
    → calculate_operations_fund_with_rent_exempt_min term_days interest principal interest_freq
        principal_freq max_lenders rent
      ≡ ok (total, ops)
    → (batches : ℕ) × (ceil_div_u16 max_lenders 14 ≡ ok batches)
      × (total ≡ rent + ops * batches * tx_fee_estimate)
unfolding calculate_operations_fund_with_rent_exempt_min
fund_parts term_days interest principal interest_freq principal_freq max_lenders rent h =
    ground arith

reimbursement_parts :
    (max_lenders actual : ℕ) {r : ℕ}
    → calculate_reimbursement max_lenders actual ≡ ok r
    → (batches : ℕ) × (ceil_div_u16 actual 14 ≡ ok batches)
      × (r ≡ batches * tx_fee_estimate)
      × (actual ≤ max_lenders)
unfolding calculate_reimbursement
reimbursement_parts max_lenders actual h = ground arith

-- The fund that a contract is created with, above the rent, pays for every estimated operation:
-- whatever the number of lenders within the maximum, that many reimbursements never exceed it.
pub operations_fund_suffices :
    (term_days : ℕ) (interest : InterestPaymentType) (principal : PrincipalPaymentType)
    (interest_freq : PaymentFrequency) (principal_freq : Option PaymentFrequency)
    (max_lenders rent actual : ℕ) {total ops r : ℕ}
    → calculate_operations_fund_with_rent_exempt_min term_days interest principal interest_freq
        principal_freq max_lenders rent
      ≡ ok (total, ops)
    → calculate_reimbursement max_lenders actual ≡ ok r
    → rent + ops * r ≤ total
operations_fund_suffices term_days interest principal interest_freq principal_freq max_lenders rent
      actual {ops = n} h k =
    let (b, eb, et) =
      fund_parts term_days interest principal interest_freq principal_freq max_lenders rent h in
    let (a, ea, er, le) = reimbursement_parts max_lenders actual k in
    let bound = batches_of_14 max_lenders eb in
    let least = batches_of_14 actual ea in
    let fewer : a ≤ b = omega arith in
    let most : n * a ≤ n * b = grind arith in omega (arith, ap (λ (fee : ℕ). n * fee) er)
