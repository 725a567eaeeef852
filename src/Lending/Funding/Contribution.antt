-- ===== src/Lending/Funding/Contribution.antt =====
-- `contribute_to_contract` of programs/stendar/src/instructions/lending.rs, with the constraints of
-- `ContributeToContract` in contexts/lending.rs. The `seeds` constraints choose the contract, the
-- contribution and the escrow.
use stendar_l.Base.{◌&&◌, not, Bool, Option, none, some, ◌==◌}
use stendar_l.Error.{StendarError, Result, ok, ◌>>=◌, ◌>>◌, require, ok_or}
use stendar_l.State.Contract.{Pubkey, DebtContract}
use stendar_l.State.Accounts.{LenderContribution}
use stendar_l.Ledger.{Ledger, Runtime}
use stendar_l.Lending.Funding.{
  Offering, Funded, FundingAccounts, finalize_contribution_to_contract, advance_funding,
}

-- The other accounts of the call.
pub record ContributeCall : Type 0 where
  pub is_paused : Bool
  pub lender_usdc_account : Option Pubkey
  pub usdc_mint : Option Pubkey
  pub accounts : FundingAccounts

-- The constraints on a token account that is optional.
unfoldable pub check_given :
    Ledger → Option Pubkey → (owner mint : Pubkey) → StendarError → Result (Unit {0})
check_given tokens none owner mint e = ok tt
check_given tokens (some k) owner mint e = do
  require ((tokens k).owner == owner) e
  require ((tokens k).mint == mint) StendarError.token_account_mismatch

unfoldable pub check_key : Option Pubkey → Pubkey → Result (Unit {0})
check_key none key = ok tt
check_key (some k) key = require (k == key) StendarError.token_account_mismatch

unfoldable pub require_funding_constraints :
    Ledger → DebtContract → Offering → ContributeCall → Result (Unit {0})
unfolding check_given check_key
require_funding_constraints tokens c o f = do
  require (o.borrower_key == c.borrower) StendarError.unauthorized_payment
  check_given tokens f.lender_usdc_account o.lender_key c.loan_mint
      StendarError.unauthorized_payment
  check_key f.accounts.contract_usdc_account c.loan_token_account
  check_given tokens f.accounts.contract_usdc_account o.contract_key c.loan_mint
      StendarError.token_account_mismatch
  check_given tokens f.accounts.borrower_usdc_account o.borrower_key c.loan_mint
      StendarError.unauthorized_payment

-- The transfer of the amount into the contract's account.
unfoldable pub transfer_contribution :
    Runtime → Ledger → DebtContract → Offering → ContributeCall → Result Ledger
transfer_contribution r tokens c o f = do
  lender_usdc ← ok_or f.lender_usdc_account StendarError.missing_token_accounts
  contract_usdc ← ok_or f.accounts.contract_usdc_account StendarError.missing_token_accounts
  usdc_mint ← ok_or f.usdc_mint StendarError.missing_token_accounts
  require ((tokens lender_usdc).owner == o.lender_key && (tokens lender_usdc).mint == c.loan_mint)
      StendarError.token_account_mismatch
  require
      ((tokens contract_usdc).owner == o.contract_key
        && (tokens contract_usdc).mint == c.loan_mint
        && contract_usdc == c.loan_token_account)
      StendarError.token_account_mismatch
  require (usdc_mint == c.loan_mint) StendarError.invalid_usdc_mint
  r.transfer tokens lender_usdc contract_usdc o.lender_key o.amount

-- `contribute_to_contract`
unfoldable pub contribute_to_contract :
    Runtime
    → Ledger
    → DebtContract
    → LenderContribution
    → Offering
    → ContributeCall
    → Result (Funded × Ledger)
unfolding require_funding_constraints finalize_contribution_to_contract transfer_contribution
    advance_funding
contribute_to_contract r tokens c contribution o f = do
  require_funding_constraints tokens c o f
  require (not f.is_paused) StendarError.platform_paused
  funded ← finalize_contribution_to_contract c contribution o
  tokens' ← transfer_contribution r tokens funded.contract o f
  advanced ← advance_funding r tokens' funded.contract f.accounts o.current_time
  ok (record funded { contract = advanced.0 }, advanced.1)
