-- ===== src/Revolving/Close/Effect.antt =====
-- What closing a facility does (`close_revolving_facility`, `bot_close_matured_revolving`).
use stendar_l.Base.{ℕ, ◌+◌, ◌≡◌, ◌⊎◌, arith, true, false, inl, inr}
use stendar_l.Base.Int.{ℤ}
use stendar_l.Error.{StendarError, ok, err, Result-cases}
use stendar_l.State.Enums.{ContractStatus}
use stendar_l.State.Contract.{Pubkey, DebtContract, update_bot_tracking}
use stendar_l.Utils.Interest.{check_revolving_completion}
use stendar_l.Ledger.{Runtime}
use stendar_l.Revolving.Facility.{Facility, Caller, bring_up_to_date}
use stendar_l.Revolving.Facility.UpToDate.{bring_up_to_date-SameTerms}
use stendar_l.Revolving.Repay.{complete_if_done}
use stendar_l.Revolving.Close.{
  may_close, early_termination_fee, pay_termination_fee, record_close, close_revolving_facility,
  may_bot_close,
}

-- A closed facility: nothing more can be drawn, and what is drawn stays owed.
pub record IsClosed (f f' : Facility) : Type 0 where
  pub drawn : f'.contract.drawn_amount ≡ f.contract.drawn_amount
  pub available : f'.contract.available_amount ≡ 0
  pub balance : f'.contract.outstanding_balance ≡ f.contract.outstanding_balance
  pub limit : f'.contract.credit_limit ≡ f.contract.credit_limit
  pub revolving : f'.contract.is_revolving ≡ true
  pub closed : f'.contract.revolving_closed ≡ true
  pub borrower : f'.contract.borrower ≡ f.contract.borrower
  pub vault : f'.contract.loan_token_account ≡ f.contract.loan_token_account
  pub debt : f'.state.total_debt ≡ f.state.total_debt
  pub key : f'.contract_key ≡ f.contract_key
  pub was_active : f.contract.status ≡ ContractStatus.active
  pub was_open : f.contract.revolving_closed ≡ false
  pub status :
      (f'.contract.status ≡ f.contract.status)
      ⊎ (f'.contract.status ≡ ContractStatus.completed) × (f'.contract.drawn_amount ≡ 0)

pub record_close-effect :
    (c : DebtContract) (fee : ℕ) (now : ℤ) (c' : DebtContract)
    → record_close c fee now ≡ ok c'
    → (c'.drawn_amount ≡ c.drawn_amount)
      × (c'.available_amount ≡ 0)
      × (c'.outstanding_balance ≡ c.outstanding_balance)
      × (c'.credit_limit ≡ c.credit_limit)
      × (c'.is_revolving ≡ c.is_revolving)
      × (c'.revolving_closed ≡ true)
      × (c'.borrower ≡ c.borrower)
      × (c'.loan_token_account ≡ c.loan_token_account)
      × (c'.accrued_standby_fees ≡ c.accrued_standby_fees + fee)
      × ((c'.status ≡ c.status) ⊎ (c'.status ≡ ContractStatus.completed) × (c'.drawn_amount ≡ 0))
unfolding record_close complete_if_done update_bot_tracking check_revolving_completion
record_close-effect c fee now c' h = ground arith

close_admitted :
    (f : Facility) (c : Caller) (k : Pubkey)
    → may_close f c k ≡ ok tt
    → (f.contract.is_revolving ≡ true)
      × (f.contract.status ≡ ContractStatus.active)
      × (f.contract.revolving_closed ≡ false)
      × (f.contract.borrower ≡ c.signer)
      × ((f.tokens c.borrower_usdc_account).owner ≡ c.signer)
      × (c.contract_usdc_account ≡ f.contract.loan_token_account)
unfolding may_close
close_admitted f c k h = ground arith

pub bot_close_admitted :
    (f : Facility) (bot : Pubkey)
    → may_bot_close f bot ≡ ok tt
    → (f.contract.is_revolving ≡ true)
      × (f.contract.status ≡ ContractStatus.active)
      × (f.contract.revolving_closed ≡ false)
      × (f.treasury.bot_authority ≡ bot)
unfolding may_bot_close
bot_close_admitted f bot h = ground arith

-- The steps of the borrower's instruction.
pub record CloseSteps (r : Runtime) (f : Facility) (c : Caller) (k : Pubkey) (now : ℤ)
    (accrued : DebtContract) (fee : ℕ) (f' : Facility) : Type 0 where
  pub admitted : may_close f c k ≡ ok tt
  pub paid : pay_termination_fee r f c fee ≡ ok f'.tokens
  pub recorded : record_close accrued fee now ≡ ok f'.contract
  pub debt : f'.state.total_debt ≡ f.state.total_debt
  pub same_key : f'.contract_key ≡ f.contract_key

close_from-CloseSteps :
    (r : Runtime) (f : Facility) (c : Caller) (k : Pubkey) (now : ℤ) (f' : Facility)
    (accrued : DebtContract) (fee : ℕ)
    → close_revolving_facility r f c k now ≡ ok f'
    → bring_up_to_date f.contract now ≡ ok accrued
    → early_termination_fee accrued accrued.available_amount now ≡ ok fee
    → CloseSteps r f c k now accrued fee f'
unfolding close_revolving_facility
close_from-CloseSteps r f c k now f' accrued fee h e g = ground arith

close_stops :
    (r : Runtime) (f : Facility) (c : Caller) (k : Pubkey) (now : ℤ) (f' : Facility)
    (e : StendarError)
    → close_revolving_facility r f c k now ≡ ok f'
    → bring_up_to_date f.contract now ≡ err e
    → ⊥
unfolding close_revolving_facility
close_stops r f c k now f' e h g = ground arith

close_stops_at_fee :
    (r : Runtime) (f : Facility) (c : Caller) (k : Pubkey) (now : ℤ) (f' : Facility)
    (accrued : DebtContract) (e : StendarError)
    → close_revolving_facility r f c k now ≡ ok f'
    → bring_up_to_date f.contract now ≡ ok accrued
    → early_termination_fee accrued accrued.available_amount now ≡ err e
    → ⊥
unfolding close_revolving_facility
close_stops_at_fee r f c k now f' accrued e h u g = ground arith

pub close-CloseSteps :
    (r : Runtime) (f : Facility) (c : Caller) (k : Pubkey) (now : ℤ) (f' : Facility)
    → close_revolving_facility r f c k now ≡ ok f'
    → (accrued : DebtContract) × (fee : ℕ) × (bring_up_to_date f.contract now ≡ ok accrued)
      × (early_termination_fee accrued accrued.available_amount now ≡ ok fee)
      × CloseSteps r f c k now accrued fee f'
close-CloseSteps r f c k now f' h = elim (Result-cases (bring_up_to_date f.contract now)) [
  | inl (a, e) ↦ elim (Result-cases (early_termination_fee a a.available_amount now)) [
    | inl (fee, g) ↦ (a, fee, e, g, close_from-CloseSteps r f c k now f' a fee h e g)
    | inr (x, g) ↦ absurd (close_stops_at_fee r f c k now f' a x h e g)
  ]
  | inr (e, g) ↦ absurd (close_stops r f c k now f' e h g)
]

-- A borrower's closing that succeeds was of an open, active facility: it leaves nothing available
-- and what is drawn as it was, and completes the facility at most when nothing is drawn.
pub close_revolving_facility-IsClosed :
    (r : Runtime) (f : Facility) (c : Caller) (k : Pubkey) (now : ℤ) (f' : Facility)
    → close_revolving_facility r f c k now ≡ ok f'
    → IsClosed f f'
close_revolving_facility-IsClosed r f c k now f' h =
    let (a, fee, e, g, s) = close-CloseSteps r f c k now f' h in
    let admitted = close_admitted f c k s.admitted in
    let same = bring_up_to_date-SameTerms f.contract now a admitted.0 e in
    let written = record_close-effect a fee now f'.contract s.recorded in ground arith
