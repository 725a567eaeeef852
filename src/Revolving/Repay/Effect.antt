-- ===== src/Revolving/Repay/Effect.antt =====
-- What a successful repayment does (`repay_revolving`).
use stendar_l.Base.{ℕ, ◌+◌, ◌≤◌, ◌<◌, ◌≡◌, ◌⊎◌, arith, true, inl, inr, if◌then◌else◌}
use stendar_l.Base.Int.{ℤ}
use stendar_l.Error.{StendarError, ok, err, Result-cases}
use stendar_l.State.Enums.{ContractStatus}
use stendar_l.State.Contract.{DebtContract, update_bot_tracking}
use stendar_l.Utils.Interest.{check_revolving_completion}
use stendar_l.Ledger.{Runtime}
use stendar_l.Revolving.Facility.{Facility, Caller, bring_up_to_date}
use stendar_l.Revolving.Facility.UpToDate.{bring_up_to_date-SameTerms}
use stendar_l.Revolving.Repay.{may_repay, record_repayment, repay_revolving, complete_if_done}

-- The steps of a repayment that succeeded, from the contract brought up to date.
pub record RepaySteps (r : Runtime) (f : Facility) (c : Caller) (amount : ℕ) (now : ℤ)
    (accrued : DebtContract) (f' : Facility) : Type 0 where
  pub admitted : may_repay f c amount ≡ ok tt
  pub paid :
      r.transfer f.tokens c.borrower_usdc_account c.contract_usdc_account c.signer amount
      ≡ ok f'.tokens
  pub recorded : record_repayment accrued amount now ≡ ok f'.contract
  pub debt : f'.state.total_debt + amount ≡ f.state.total_debt
  pub same_key : f'.contract_key ≡ f.contract_key

repay_from-RepaySteps :
    (r : Runtime) (f : Facility) (c : Caller) (amount : ℕ) (now : ℤ) (f' : Facility)
    (accrued : DebtContract)
    → repay_revolving r f c amount now ≡ ok f'
    → bring_up_to_date f.contract now ≡ ok accrued
    → RepaySteps r f c amount now accrued f'
unfolding repay_revolving
repay_from-RepaySteps r f c amount now f' accrued h e = ground arith

repay_stops :
    (r : Runtime) (f : Facility) (c : Caller) (amount : ℕ) (now : ℤ) (f' : Facility)
    (e : StendarError)
    → repay_revolving r f c amount now ≡ ok f'
    → bring_up_to_date f.contract now ≡ err e
    → ⊥
unfolding repay_revolving
repay_stops r f c amount now f' e h k = ground arith

pub repay-RepaySteps :
    (r : Runtime) (f : Facility) (c : Caller) (amount : ℕ) (now : ℤ) (f' : Facility)
    → repay_revolving r f c amount now ≡ ok f'
    → (accrued : DebtContract) × (bring_up_to_date f.contract now ≡ ok accrued)
      × RepaySteps r f c amount now accrued f'
repay-RepaySteps r f c amount now f' h = elim (Result-cases (bring_up_to_date f.contract now)) [
  | inl (a, e) ↦ (a, e, repay_from-RepaySteps r f c amount now f' a h e)
  | inr (e, k) ↦ absurd (repay_stops r f c amount now f' e h k)
]

-- What the tests of a repayment establish.
pub record AdmittedRepayment (f : Facility) (c : Caller) (amount : ℕ) : Type 0 where
  pub by_borrower : f.contract.borrower ≡ c.signer
  pub vault : c.contract_usdc_account ≡ f.contract.loan_token_account
  pub positive : 0 < amount
  pub revolving : f.contract.is_revolving ≡ true
  pub live :
      (f.contract.status ≡ ContractStatus.active)
      ⊎ (f.contract.status ≡ ContractStatus.pending_recall)
  pub within : amount ≤ f.contract.drawn_amount
  pub from_borrower : (f.tokens c.borrower_usdc_account).owner ≡ c.signer
  pub to_contract : (f.tokens c.contract_usdc_account).owner ≡ f.contract_key

pub may_repay-AdmittedRepayment :
    (f : Facility) (c : Caller) (amount : ℕ)
    → may_repay f c amount ≡ ok tt
    → AdmittedRepayment f c amount
unfolding may_repay
may_repay-AdmittedRepayment f c amount h = ground arith

-- Completion changes the status alone, and only of a closed facility with nothing drawn.
pub record IsSettled (c c' : DebtContract) : Type 0 where
  pub drawn : c'.drawn_amount ≡ c.drawn_amount
  pub available : c'.available_amount ≡ c.available_amount
  pub balance : c'.outstanding_balance ≡ c.outstanding_balance
  pub limit : c'.credit_limit ≡ c.credit_limit
  pub revolving : c'.is_revolving ≡ c.is_revolving
  pub closed : c'.revolving_closed ≡ c.revolving_closed
  pub borrower : c'.borrower ≡ c.borrower
  pub vault : c'.loan_token_account ≡ c.loan_token_account
  pub fees : c'.accrued_standby_fees ≡ c.accrued_standby_fees
  pub status :
      (c'.status ≡ c.status)
      ⊎ (c'.status ≡ ContractStatus.completed) × (c.revolving_closed ≡ true) × (c.drawn_amount ≡ 0)

pub complete_if_done-IsSettled :
    (c : DebtContract) (now : ℤ) → IsSettled c (update_bot_tracking (complete_if_done c) now)
unfolding complete_if_done check_revolving_completion update_bot_tracking
complete_if_done-IsSettled c now = ground arith

record_repayment-effect :
    (c : DebtContract) (amount : ℕ) (now : ℤ) (c' : DebtContract)
    → record_repayment c amount now ≡ ok c'
    → (c'.drawn_amount + amount ≡ c.drawn_amount)
      × (c'.available_amount ≡ (if c.revolving_closed then 0 else c.available_amount + amount))
      × (c'.outstanding_balance ≡ c'.drawn_amount)
      × (c'.credit_limit ≡ c.credit_limit)
      × (c'.is_revolving ≡ c.is_revolving)
      × (c'.revolving_closed ≡ c.revolving_closed)
      × (c'.borrower ≡ c.borrower)
      × (c'.loan_token_account ≡ c.loan_token_account)
      × ((c'.status ≡ c.status)
          ⊎ (c'.status ≡ ContractStatus.completed)
            × (c.revolving_closed ≡ true)
            × (c'.drawn_amount ≡ 0))
unfolding record_repayment update_bot_tracking check_revolving_completion
record_repayment-effect c amount now c' h = ground arith

-- What a repayment does to the facility.
pub record IsRepaid (f : Facility) (c : Caller) (amount : ℕ) (f' : Facility) : Type 0 where
  pub drawn : f'.contract.drawn_amount + amount ≡ f.contract.drawn_amount
  pub available :
      f'.contract.available_amount
      ≡ (if f.contract.revolving_closed then 0 else f.contract.available_amount + amount)
  pub balance : f'.contract.outstanding_balance ≡ f'.contract.drawn_amount
  pub limit : f'.contract.credit_limit ≡ f.contract.credit_limit
  pub revolving : f'.contract.is_revolving ≡ true
  pub closed : f'.contract.revolving_closed ≡ f.contract.revolving_closed
  pub borrower : f'.contract.borrower ≡ f.contract.borrower
  pub vault : f'.contract.loan_token_account ≡ f.contract.loan_token_account
  pub debt : f'.state.total_debt + amount ≡ f.state.total_debt
  pub key : f'.contract_key ≡ f.contract_key
  pub status :
      (f'.contract.status ≡ f.contract.status)
      ⊎ (f'.contract.status ≡ ContractStatus.completed)
        × (f.contract.revolving_closed ≡ true)
        × (f'.contract.drawn_amount ≡ 0)

-- A repayment that succeeds was made by the borrower of a live facility and is at most what is
-- drawn; it comes off what is drawn and off the platform's debt, is available again unless the
-- facility is closed, and the tokens move from the borrower to the contract. The facility is
-- completed at most when it is closed and nothing is drawn.
pub repay_revolving-IsRepaid :
    (r : Runtime) (f : Facility) (c : Caller) (amount : ℕ) (now : ℤ) (f' : Facility)
    → repay_revolving r f c amount now ≡ ok f'
    → AdmittedRepayment f c amount
      × IsRepaid f c amount f'
      × (r.transfer f.tokens c.borrower_usdc_account c.contract_usdc_account c.signer amount
          ≡ ok f'.tokens)
repay_revolving-IsRepaid r f c amount now f' h =
    let (a, e, s) = repay-RepaySteps r f c amount now f' h in
    let admitted = may_repay-AdmittedRepayment f c amount s.admitted in
    let same = bring_up_to_date-SameTerms f.contract now a admitted.revolving e in
    let written = record_repayment-effect a amount now f'.contract s.recorded in
    (admitted, ground arith, s.paid)
