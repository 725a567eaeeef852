-- ===== src/Pools/Deploy.antt =====
-- A pool as a lender (programs/stendar/src/instructions/pools.rs): `pool_deploy_to_contract`,
-- `pool_claim_from_escrow` and `pool_request_recall`.
pub mod Effect
use stendar_l.Base.{ℕ, true, ◌&&◌, ◌||◌, not, Bool, Option, some, ltb, leb, ◌==◌, if◌then◌else◌}
use stendar_l.Base.Int.{ℤ}
use stendar_l.Base.Word.{u64_max, checked_add, checked_sub, saturating_sub}
use stendar_l.Error.{StendarError, Result, ok, err, ◌>>=◌, ◌>>◌, require, ok_or}
use stendar_l.State.Enums.{ContractStatus, status_eq, is_committed}
use stendar_l.State.Contract.{Pubkey, DebtContract, default_key, update_bot_tracking}
use stendar_l.State.Accounts.{PlatformState, LenderContribution, LenderEscrow}
use stendar_l.State.Pools.{PoolState, available_liquidity}
use stendar_l.Utils.Scale.{require_current_version}
use stendar_l.Ledger.{Ledger, Runtime}
use stendar_l.Revolving.Pairs.{escrow_address}
use stendar_l.Pools.Call.{require_pool_active, refresh_pool_idle_since}
use stendar_l.Lending.{ApprovedFunder, validate_demand_recall_contract}
use stendar_l.Lending.Funding.{
  Offering, Funded, FundingAccounts, finalize_contribution_to_contract, advance_funding,
}

-- A pool with the contract it lends to, the pool's contribution and escrow there, and the tokens.
pub record Lending : Type 0 where
  pub pool : PoolState
  pub contract : DebtContract
  pub contribution : LenderContribution
  pub escrow : LenderEscrow
  pub tokens : Ledger

pub record LendingCall : Type 0 where
  pub signer : Pubkey
  pub state : PlatformState
  pub pool_key : Pubkey
  pub pool_vault : Pubkey
  pub contract_key : Pubkey
  pub contribution_key : Pubkey
  pub borrower_key : Pubkey
  pub contract_usdc_account : Pubkey
  pub borrower_usdc_account : Option Pubkey
  pub usdc_mint : Pubkey
  pub approved_funder : Option ApprovedFunder
  pub now : ℤ

-- The kinds of loan that a pool takes: 0 both, 1 demand loans, 2 committed loans.
unfoldable pub check_loan_type : ℕ → DebtContract → Result (Unit {0})
check_loan_type allowed_loan_type c =
    if allowed_loan_type == 0
    then ok tt
    else if allowed_loan_type == 1
    then require (not (is_committed c.loan_type)) StendarError.pool_loan_type_mismatch
    else if allowed_loan_type == 2
    then require (is_committed c.loan_type) StendarError.pool_loan_type_mismatch
    else err StendarError.pool_deployment_rule_violation

-- The rules of the pool for what it lends to.
unfoldable pub check_rules : PoolState → DebtContract → Result (Unit {0})
unfolding check_loan_type
check_rules p c = do
  check_loan_type p.allowed_loan_type c
  require (p.min_ltv_bps == 0 || leb p.min_ltv_bps c.ltv_floor_bps)
      StendarError.pool_deployment_rule_violation
  require (p.max_term_days == 0 || (ltb 0 c.term_days && leb c.term_days p.max_term_days))
      StendarError.pool_deployment_rule_violation

-- What the pool has free and the vault holds covers the amount.
unfoldable pub check_free : Lending → LendingCall → ℕ → Result (Unit {0})
unfolding available_liquidity
check_free s c amount = do
  liquidity ← available_liquidity s.pool
  require (leb amount liquidity) StendarError.insufficient_pool_liquidity
  require (leb amount (s.tokens c.pool_vault).amount) StendarError.insufficient_pool_liquidity

-- The tests on the token accounts and mints.
unfoldable pub check_accounts : Lending → LendingCall → Result (Unit {0})
check_accounts s c = do
  require
      ((s.tokens c.pool_vault).owner == c.pool_key
        && (s.tokens c.pool_vault).mint == s.pool.loan_mint)
      StendarError.token_account_mismatch
  require
      ((s.tokens c.contract_usdc_account).owner == c.contract_key
        && (s.tokens c.contract_usdc_account).mint == s.contract.loan_mint
        && c.contract_usdc_account == s.contract.loan_token_account)
      StendarError.token_account_mismatch
  require (s.pool.loan_mint == s.contract.loan_mint && c.usdc_mint == s.contract.loan_mint)
      StendarError.invalid_usdc_mint

-- `pool_deploy_to_contract` up to the contribution, its constraints first.
unfoldable pub may_deploy : Lending → LendingCall → ℕ → Result (Unit {0})
unfolding require_pool_active check_free check_rules check_accounts
may_deploy s c amount = do
  require (s.pool.operator == c.signer) StendarError.invalid_pool_operator
  require (c.pool_vault == s.pool.vault_token_account) StendarError.token_account_mismatch
  require (c.borrower_key == s.contract.borrower) StendarError.unauthorized_payment
  require (ltb 0 amount) StendarError.invalid_contribution_amount
  require_current_version c.state.account_version
  require (not c.state.is_paused) StendarError.platform_paused
  require_current_version s.pool.account_version
  require_pool_active s.pool
  check_free s c amount
  require_current_version s.contract.account_version
  check_rules s.pool s.contract
  check_accounts s c

-- The pool's contribution, as `finalize_contribution_to_contract` takes it.
abbrev pub offering_of : LendingCall → ℕ → Offering
offering_of c amount = record {
  contribution_key = c.contribution_key;
  contract_key = c.contract_key;
  lender_key = c.pool_key;
  borrower_key = c.borrower_key;
  amount = amount;
  current_time = c.now;
  approved_funder = c.approved_funder;
}

abbrev pub accounts_of : LendingCall → FundingAccounts
accounts_of c = record {
  contract_key = c.contract_key;
  borrower_key = c.borrower_key;
  contract_usdc_account = some c.contract_usdc_account;
  borrower_usdc_account = c.borrower_usdc_account;
}

-- `pool_deploy_to_contract`
unfoldable pub pool_deploy_to_contract : Runtime → Lending → LendingCall → ℕ → Result Lending
unfolding may_deploy finalize_contribution_to_contract advance_funding
pool_deploy_to_contract r s c amount = do
  may_deploy s c amount
  funded ← finalize_contribution_to_contract s.contract s.contribution (offering_of c amount)
  paid ← r.transfer s.tokens c.pool_vault c.contract_usdc_account c.pool_key amount
  advanced ← advance_funding r paid funded.contract (accounts_of c) c.now
  utilized ←
      ok_or (checked_add u64_max s.pool.current_utilized amount) StendarError.arithmetic_overflow
  ok (record {
    pool = record s.pool { current_utilized = utilized };
    contract = advanced.0;
    contribution = funded.contribution;
    escrow = funded.escrow;
    tokens = advanced.1;
  })

-- `pool_claim_from_escrow` up to the sum of what is there; the operator or the bot may claim.
unfoldable pub may_claim_escrow :
    Lending
    → LendingCall
    → (bot_authority escrow_key escrow_usdc_account : Pubkey) → Result (Unit {0})
may_claim_escrow s c bot_authority escrow_key escrow_usdc_account = do
  require (s.pool.operator == c.signer || bot_authority == c.signer)
      StendarError.invalid_pool_operator
  require (c.pool_vault == s.pool.vault_token_account) StendarError.token_account_mismatch
  require_current_version s.pool.account_version
  require_current_version s.escrow.account_version
  require (s.escrow.contract == c.contract_key && s.escrow.lender == c.pool_key)
      StendarError.invalid_contribution
  require
      (not (s.escrow.escrow_token_account == default_key)
        && s.escrow.escrow_token_account == escrow_usdc_account)
      StendarError.token_account_mismatch
  require
      ((s.tokens escrow_usdc_account).owner == escrow_key
        && (s.tokens escrow_usdc_account).mint == s.contract.loan_mint)
      StendarError.token_account_mismatch
  require
      ((s.tokens c.pool_vault).owner == c.pool_key
        && (s.tokens c.pool_vault).mint == s.contract.loan_mint
        && c.pool_vault == s.pool.vault_token_account)
      StendarError.token_account_mismatch

-- The books after a claim: principal that comes back is no longer utilized, interest is not counted.
unfoldable pub record_escrow_claim :
    PoolState → LenderEscrow → ℕ → ℤ → Result (PoolState × LenderEscrow)
unfolding refresh_pool_idle_since
record_escrow_claim p escrow total_available now = do
  claimed ←
      ok_or (checked_add u64_max escrow.total_claimed total_available)
        StendarError.arithmetic_overflow
  utilized ←
      if ltb 0 escrow.available_principal
      then ok_or (checked_sub p.current_utilized escrow.available_principal)
          StendarError.arithmetic_overflow
      else ok p.current_utilized
  ok (
    refresh_pool_idle_since (record p { current_utilized = utilized }) now,
    record escrow {
      total_claimed = claimed;
      escrow_amount = saturating_sub escrow.escrow_amount total_available;
      available_interest = 0;
      available_principal = 0;
    },
  )

-- `pool_claim_from_escrow`
unfoldable pub pool_claim_from_escrow :
    Runtime
    → Lending
    → LendingCall
    → (bot_authority escrow_key escrow_usdc_account : Pubkey) → Result Lending
unfolding may_claim_escrow record_escrow_claim
pool_claim_from_escrow r s c bot_authority escrow_key escrow_usdc_account = do
  may_claim_escrow s c bot_authority escrow_key escrow_usdc_account
  total_available ←
      ok_or (checked_add u64_max s.escrow.available_interest s.escrow.available_principal)
        StendarError.arithmetic_overflow
  require (ltb 0 total_available) StendarError.no_payment_due
  require (escrow_address r c.contract_key c.pool_key == escrow_key)
      StendarError.invalid_contribution
  tokens ← r.transfer s.tokens escrow_usdc_account c.pool_vault escrow_key total_available
  recorded ← record_escrow_claim s.pool s.escrow total_available c.now
  ok (record s { pool = recorded.0; escrow = recorded.1; tokens = tokens })

-- `pool_request_recall`
unfoldable pub pool_request_recall : Lending → LendingCall → Result DebtContract
unfolding validate_demand_recall_contract
pool_request_recall s c = do
  require (s.pool.operator == c.signer) StendarError.invalid_pool_operator
  require (s.contribution.contract == c.contract_key) StendarError.invalid_contribution
  require (s.contribution.lender == c.pool_key) StendarError.invalid_pool_operator
  require_current_version s.pool.account_version
  require_current_version s.contract.account_version
  require_current_version s.contribution.account_version
  validate_demand_recall_contract s.contract
  require (status_eq s.contract.status ContractStatus.active) StendarError.contract_not_funded
  require (not s.contract.recall_requested) StendarError.recall_already_pending
  require (ltb 0 s.contribution.contribution_amount) StendarError.invalid_contribution_amount
  require (s.contribution.contract == c.contract_key && s.contribution.lender == c.pool_key)
      StendarError.invalid_contribution
  ok (
      update_bot_tracking
        (record s.contract {
          recall_requested = true;
          recall_requested_at = c.now;
          recall_requested_by = c.pool_key;
          status = ContractStatus.pending_recall;
        })
        c.now)
