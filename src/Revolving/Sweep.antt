-- ===== src/Revolving/Sweep.antt =====
-- `sweep_contract_pool` of programs/stendar/src/instructions/revolving.rs: what is left in a finished
-- contract's account goes to the borrower.
pub mod Effect
use stendar_l.Base.{not, ◌==◌, if◌then◌else◌}
use stendar_l.Base.Keys.{is_empty}
use stendar_l.Error.{StendarError, Result, ok, ◌>>=◌, ◌>>◌, require}
use stendar_l.Utils.Scale.{require_current_version}
use stendar_l.Ledger.{Runtime}
use stendar_l.Revolving.Facility.{
  Facility, Caller, require_revolving_contract, can_sweep_contract_pool, require_borrower,
  require_contract_account, require_token_account, require_contract_address,
}

-- The constraints of the accounts and the tests of the instruction.
unfoldable pub may_sweep : Facility → Caller → Result (Unit {0})
unfolding require_borrower require_contract_account require_revolving_contract
    can_sweep_contract_pool require_token_account
may_sweep f c = do
  require_borrower f c
  require_contract_account f c
  require ((f.tokens c.borrower_usdc_account).owner == c.signer) StendarError.unauthorized_payment
  require ((f.tokens c.borrower_usdc_account).mint == f.contract.loan_mint)
      StendarError.token_account_mismatch
  require_current_version f.contract.account_version
  require_current_version f.state.account_version
  require (not f.state.is_paused) StendarError.platform_paused
  require_revolving_contract f.contract
  require (can_sweep_contract_pool f.contract.status) StendarError.cannot_cancel_contract
  require (is_empty f.contract.contributions) StendarError.invalid_contribution
  require_token_account f c.contract_usdc_account f.contract_key

-- `sweep_contract_pool`
unfoldable pub sweep_contract_pool : Runtime → Facility → Caller → Result Facility
sweep_contract_pool r f c = do
  may_sweep f c
  let sweep_amount = (f.tokens c.contract_usdc_account).amount
  if sweep_amount == 0 then ok f else (do
    require_contract_address r f
    tokens ←
        r.transfer f.tokens c.contract_usdc_account c.borrower_usdc_account f.contract_key
          sweep_amount
    ok (record f { tokens = tokens }))
