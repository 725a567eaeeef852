-- ===== src/Revolving/Facility/UpToDate.antt =====
-- What bringing a revolving contract up to date leaves alone.
use stendar_l.Base.{◌≤◌, ◌≡◌, ◌∙◌, arith, true, inl, inr}
use stendar_l.Base.Int.{ℤ}
use stendar_l.Error.{ok, Result-cases}
use stendar_l.State.Contract.{DebtContract}
use stendar_l.Utils.Interest.{process_automatic_interest, checkpoint_standby_fees, accrue_revolving}
use stendar_l.Revolving.Facility.{bring_up_to_date}

-- Two states of a contract with the same terms, facility and principal; accruals may differ.
pub record SameTerms (c c' : DebtContract) : Type 0 where
  pub borrower_same : c'.borrower ≡ c.borrower
  pub account_same : c'.loan_token_account ≡ c.loan_token_account
  pub revolving_same : c'.is_revolving ≡ c.is_revolving
  pub closed_same : c'.revolving_closed ≡ c.revolving_closed
  pub status_same : c'.status ≡ c.status
  pub limit_same : c'.credit_limit ≡ c.credit_limit
  pub drawn_same : c'.drawn_amount ≡ c.drawn_amount
  pub available_same : c'.available_amount ≡ c.available_amount
  pub balance_same : c'.outstanding_balance ≡ c.outstanding_balance
  pub draws_same : c'.total_draws ≡ c.total_draws
  pub fees_paid_same : c'.total_standby_fees_paid ≡ c.total_standby_fees_paid
  pub fees_grow : c.accrued_standby_fees ≤ c'.accrued_standby_fees

pub checkpoint-SameTerms :
    (c : DebtContract) (now : ℤ) (c' : DebtContract)
    → checkpoint_standby_fees c now ≡ ok c'
    → SameTerms c c'
unfolding checkpoint_standby_fees
checkpoint-SameTerms c now c' h = ground arith

process-SameTerms :
    (c : DebtContract) (now : ℤ) (c' : DebtContract)
    → c.is_revolving ≡ true
    → process_automatic_interest c now ≡ ok c'
    → SameTerms c c'
unfolding process_automatic_interest accrue_revolving
process-SameTerms c now c' r h = ground arith

SameTerms-trans : (a b c : DebtContract) → SameTerms a b → SameTerms b c → SameTerms a c
SameTerms-trans a b c h k = ground arith

pub bring_up_to_date-SameTerms :
    (c : DebtContract) (now : ℤ) (c' : DebtContract)
    → c.is_revolving ≡ true
    → bring_up_to_date c now ≡ ok c'
    → SameTerms c c'
unfolding bring_up_to_date
bring_up_to_date-SameTerms c now c' r h = elim (Result-cases (checkpoint_standby_fees c now)) [
  | inl (m, e) ↦
      let first = checkpoint-SameTerms c now m e in
      SameTerms-trans c m c' first
        (process-SameTerms m now c' (first.revolving_same ∙ r) (rw e at h))
  | inr (e, k) ↦ absurd (ground arith)
]
