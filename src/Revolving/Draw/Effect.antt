-- ===== src/Revolving/Draw/Effect.antt =====
-- What a successful draw does (`draw_from_revolving`).
use stendar_l.Base.{ℕ, ◌+◌, ◌≤◌, ◌<◌, ◌≡◌, arith, true, false, inl, inr}
use stendar_l.Base.Int.{ℤ}
use stendar_l.Error.{StendarError, ok, err, Result-cases}
use stendar_l.State.Enums.{ContractStatus}
use stendar_l.State.Contract.{DebtContract, update_bot_tracking}
use stendar_l.Ledger.{Runtime}
use stendar_l.Revolving.Facility.{Facility, Caller, bring_up_to_date}
use stendar_l.Revolving.Facility.UpToDate.{bring_up_to_date-SameTerms}
use stendar_l.Revolving.Draw.{PriceAccounts, may_draw, record_draw, draw_from_revolving}

-- The steps of a draw that succeeded, from the contract brought up to date.
pub record DrawSteps (r : Runtime) (f : Facility) (c : Caller) (amount : ℕ) (now : ℤ)
    (accrued : DebtContract) (f' : Facility) : Type 0 where
  pub admitted : may_draw f c amount ≡ ok tt
  pub paid :
      r.transfer f.tokens c.contract_usdc_account c.borrower_usdc_account f.contract_key amount
      ≡ ok f'.tokens
  pub recorded : record_draw accrued amount now ≡ ok f'.contract
  pub debt : f'.state.total_debt ≡ f.state.total_debt + amount
  pub same_key : f'.contract_key ≡ f.contract_key

draw_from-DrawSteps :
    (r : Runtime) (f : Facility) (c : Caller) (p : PriceAccounts) (amount : ℕ) (now : ℤ)
    (f' : Facility) (accrued : DebtContract)
    → draw_from_revolving r f c p amount now ≡ ok f'
    → bring_up_to_date f.contract now ≡ ok accrued
    → DrawSteps r f c amount now accrued f'
unfolding draw_from_revolving
draw_from-DrawSteps r f c p amount now f' accrued h e = ground arith

draw_stops :
    (r : Runtime) (f : Facility) (c : Caller) (p : PriceAccounts) (amount : ℕ) (now : ℤ)
    (f' : Facility) (e : StendarError)
    → draw_from_revolving r f c p amount now ≡ ok f'
    → bring_up_to_date f.contract now ≡ err e
    → ⊥
unfolding draw_from_revolving
draw_stops r f c p amount now f' e h k = ground arith

pub draw-DrawSteps :
    (r : Runtime) (f : Facility) (c : Caller) (p : PriceAccounts) (amount : ℕ) (now : ℤ)
    (f' : Facility)
    → draw_from_revolving r f c p amount now ≡ ok f'
    → (accrued : DebtContract) × (bring_up_to_date f.contract now ≡ ok accrued)
      × DrawSteps r f c amount now accrued f'
draw-DrawSteps r f c p amount now f' h = elim (Result-cases (bring_up_to_date f.contract now)) [
  | inl (a, e) ↦ (a, e, draw_from-DrawSteps r f c p amount now f' a h e)
  | inr (e, k) ↦ absurd (draw_stops r f c p amount now f' e h k)
]

-- What the tests of a draw establish.
pub record AdmittedDraw (f : Facility) (c : Caller) (amount : ℕ) : Type 0 where
  pub by_borrower : f.contract.borrower ≡ c.signer
  pub vault : c.contract_usdc_account ≡ f.contract.loan_token_account
  pub positive : 0 < amount
  pub running : f.state.is_paused ≡ false
  pub revolving : f.contract.is_revolving ≡ true
  pub active : f.contract.status ≡ ContractStatus.active
  pub open_facility : f.contract.revolving_closed ≡ false
  pub within : amount ≤ f.contract.available_amount
  pub to_borrower : (f.tokens c.borrower_usdc_account).owner ≡ c.signer
  pub from_contract : (f.tokens c.contract_usdc_account).owner ≡ f.contract_key
  pub funded : amount ≤ (f.tokens c.contract_usdc_account).amount

pub may_draw-AdmittedDraw :
    (f : Facility) (c : Caller) (amount : ℕ) → may_draw f c amount ≡ ok tt → AdmittedDraw f c amount
unfolding may_draw
may_draw-AdmittedDraw f c amount h = ground arith

record_draw-effect :
    (c : DebtContract) (amount : ℕ) (now : ℤ) (c' : DebtContract)
    → record_draw c amount now ≡ ok c'
    → (c'.drawn_amount ≡ c.drawn_amount + amount)
      × (c'.available_amount + amount ≡ c.available_amount)
      × (c'.outstanding_balance ≡ c'.drawn_amount)
      × (c'.total_draws ≡ c.total_draws + 1)
      × (c'.credit_limit ≡ c.credit_limit)
      × (c'.status ≡ c.status)
      × (c'.is_revolving ≡ c.is_revolving)
      × (c'.revolving_closed ≡ c.revolving_closed)
      × (c'.borrower ≡ c.borrower)
      × (c'.loan_token_account ≡ c.loan_token_account)
unfolding record_draw update_bot_tracking
record_draw-effect c amount now c' h = ground arith

-- What a draw does to the facility.
pub record IsDrawn (f : Facility) (c : Caller) (amount : ℕ) (f' : Facility) : Type 0 where
  pub drawn : f'.contract.drawn_amount ≡ f.contract.drawn_amount + amount
  pub available : f'.contract.available_amount + amount ≡ f.contract.available_amount
  pub balance : f'.contract.outstanding_balance ≡ f'.contract.drawn_amount
  pub draws : f'.contract.total_draws ≡ f.contract.total_draws + 1
  pub limit : f'.contract.credit_limit ≡ f.contract.credit_limit
  pub status : f'.contract.status ≡ ContractStatus.active
  pub revolving : f'.contract.is_revolving ≡ true
  pub open_facility : f'.contract.revolving_closed ≡ false
  pub borrower : f'.contract.borrower ≡ f.contract.borrower
  pub vault : f'.contract.loan_token_account ≡ f.contract.loan_token_account
  pub debt : f'.state.total_debt ≡ f.state.total_debt + amount
  pub key : f'.contract_key ≡ f.contract_key

-- A draw that succeeds was asked for by the borrower of an open, active facility and lies within
-- what is available and what the contract's account holds; it moves the amount from what is
-- available to what is drawn, adds it to the platform's debt and transfers it to the borrower.
pub draw_from_revolving-IsDrawn :
    (r : Runtime) (f : Facility) (c : Caller) (p : PriceAccounts) (amount : ℕ) (now : ℤ)
    (f' : Facility)
    → draw_from_revolving r f c p amount now ≡ ok f'
    → AdmittedDraw f c amount
      × IsDrawn f c amount f'
      × (r.transfer f.tokens c.contract_usdc_account c.borrower_usdc_account f.contract_key amount
          ≡ ok f'.tokens)
draw_from_revolving-IsDrawn r f c p amount now f' h =
    let (a, e, s) = draw-DrawSteps r f c p amount now f' h in
    let admitted = may_draw-AdmittedDraw f c amount s.admitted in
    let same = bring_up_to_date-SameTerms f.contract now a admitted.revolving e in
    let written = record_draw-effect a amount now f'.contract s.recorded in
    (admitted, ground arith, s.paid)
