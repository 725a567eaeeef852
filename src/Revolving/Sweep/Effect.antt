-- ===== src/Revolving/Sweep/Effect.antt =====
-- What a sweep of a finished contract's account does (`sweep_contract_pool`).
use stendar_l.Base.{◌+◌, ◌≡◌, ◌≢◌, ◌⊎◌, arith, inl, inr, []}
use stendar_l.Error.{ok}
use stendar_l.State.Enums.{ContractStatus}
use stendar_l.Ledger.{Runtime, IsTokenProgram}
use stendar_l.Ledger.Balances.{owners_differ}
use stendar_l.Revolving.Facility.{Facility, Caller}
use stendar_l.Revolving.Sweep.{may_sweep, sweep_contract_pool}

-- What the tests of a sweep establish.
pub record AdmittedSweep (f : Facility) (c : Caller) : Type 0 where
  pub by_borrower : f.contract.borrower ≡ c.signer
  pub vault : c.contract_usdc_account ≡ f.contract.loan_token_account
  pub finished :
      (f.contract.status ≡ ContractStatus.completed)
      ⊎ (f.contract.status ≡ ContractStatus.liquidated)
  pub no_lender : f.contract.contributions ≡ []
  pub to_borrower : (f.tokens c.borrower_usdc_account).owner ≡ c.signer
  pub from_contract : (f.tokens c.contract_usdc_account).owner ≡ f.contract_key

pub may_sweep-AdmittedSweep :
    (f : Facility) (c : Caller) → may_sweep f c ≡ ok tt → AdmittedSweep f c
unfolding may_sweep
may_sweep-AdmittedSweep f c h = ground arith

pub sweep-cases :
    (r : Runtime) (f : Facility) (c : Caller) (f' : Facility)
    → sweep_contract_pool r f c ≡ ok f'
    → (may_sweep f c ≡ ok tt)
      × (f'.contract ≡ f.contract)
      × (f'.contract_key ≡ f.contract_key)
      × (((f.tokens c.contract_usdc_account).amount ≡ 0) × (f'.tokens ≡ f.tokens)
          ⊎ (r.transfer f.tokens c.contract_usdc_account c.borrower_usdc_account f.contract_key
                (f.tokens c.contract_usdc_account).amount
              ≡ ok f'.tokens))
unfolding sweep_contract_pool
sweep-cases r f c f' h = ground arith

-- A sweep that succeeds was asked for by the borrower of a finished contract without lenders. If
-- the borrower is not the contract itself and the token program is as documented, it leaves nothing
-- in the contract's account, gives all of it to the borrower's, and changes nothing of the
-- contract.
pub sweep_contract_pool_empties :
    (r : Runtime)
    → IsTokenProgram r
    → (f : Facility) (c : Caller) (f' : Facility) → f.contract_key ≢ c.signer
    → sweep_contract_pool r f c ≡ ok f'
    → AdmittedSweep f c
      × ((f'.tokens c.contract_usdc_account).amount ≡ 0)
      × ((f'.tokens c.borrower_usdc_account).amount
          ≡ (f.tokens c.borrower_usdc_account).amount + (f.tokens c.contract_usdc_account).amount)
      × (f'.contract ≡ f.contract)
sweep_contract_pool_empties r law f c f' ne h =
    let (m, same, key, moved) = sweep-cases r f c f' h in
    let admitted = may_sweep-AdmittedSweep f c m in
    let apart =
      owners_differ f.tokens c.contract_usdc_account c.borrower_usdc_account f.contract_key c.signer
        admitted.from_contract admitted.to_borrower ne in
    elim moved [
      | inl (empty, kept) ↦ (admitted, rw kept empty, rw (kept, empty) (omega arith), same)
      | inr paid ↦
          let balances =
            law.moves f.tokens f'.tokens c.contract_usdc_account c.borrower_usdc_account
              f.contract_key _ paid apart in
          (admitted, omega (arith, balances), balances.1, same)
    ]
