-- ===== src/Lending/Funding/Opening.antt =====
-- From funding to the life of a facility: what `contribute_to_contract` does to the contract's
-- account, and the facility that the last contribution opens (Revolving).
use stendar_l.Base.{◌≤◌, ◌<◌, ◌≡◌, ◌⊎◌, true, false}
use stendar_l.Error.{ok}
use stendar_l.State.Enums.{ContractStatus}
use stendar_l.State.Contract.{Pubkey, DebtContract}
use stendar_l.State.Accounts.{LenderContribution, PlatformState}
use stendar_l.State.Treasury.{Treasury}
use stendar_l.Ledger.{Ledger, Runtime, Accounts}
use stendar_l.Revolving.Facility.{Facility}
use stendar_l.Lending.Funding.{Offering, Funded, finalize_contribution_to_contract, advance_funding}
use stendar_l.Lending.Funding.Contribution.{ContributeCall, transfer_contribution}

-- A contribution's transfer, from an account of the lender into the contract's.
record IsTransferred (r : Runtime) (l : Ledger) (c : DebtContract) (o : Offering) (l' : Ledger)
    : Type 0 where
  pub from : Pubkey
  pub of_lender : (l from).owner ≡ o.lender_key
  pub of_contract : (l c.loan_token_account).owner ≡ o.contract_key
  pub paid : r.transfer l from c.loan_token_account o.lender_key o.amount ≡ ok l'

-- A contract that is revolving and full becomes a facility from which all that is funded may be
-- drawn; one that is not full takes no step but its status.
record IsAdvanced (c : DebtContract) (l : Ledger) (c' : DebtContract) (l' : Ledger) : Type 0 where
  pub kept : l' ≡ l
  pub revolving : c'.is_revolving ≡ true
  pub funded : c'.funded_amount ≡ c.funded_amount
  pub borrower : c'.borrower ≡ c.borrower
  pub vault : c'.loan_token_account ≡ c.loan_token_account
  pub opened :
      (c.target_amount ≤ c.funded_amount)
        × (c'.status ≡ ContractStatus.active)
        × (c'.drawn_amount ≡ 0)
        × (c'.outstanding_balance ≡ 0)
        × (c'.available_amount ≡ c.funded_amount)
        × (c'.credit_limit ≡ c.funded_amount)
        × (c'.revolving_closed ≡ false)
      ⊎ (c.funded_amount < c.target_amount)

record ContributeSteps (r : Runtime) (l : Ledger) (c : DebtContract)
    (contribution : LenderContribution) (o : Offering) (f : ContributeCall) (x : Funded)
    (l' : Ledger) : Type 0 where
  pub funded : Funded
  pub paid_in : Ledger
  pub finalized : finalize_contribution_to_contract c contribution o ≡ ok funded
  pub transferred : transfer_contribution r l funded.contract o f ≡ ok paid_in
  pub advanced :
      advance_funding r paid_in funded.contract f.accounts o.current_time ≡ ok (x.contract, l')
  pub contribution_kept : x.contribution ≡ funded.contribution

-- The facility that a contract is when it opens.
abbrev facility_of :
    Pubkey
    → DebtContract
    → PlatformState
    → (treasury_key : Pubkey) → Treasury
    → Ledger
    → Accounts
    → Facility
facility_of contract_key c state treasury_key treasury l a = record {
  contract_key = contract_key;
  contract = c;
  state = state;
  treasury_key = treasury_key;
  treasury = treasury;
  tokens = l;
  accounts = a;
}
