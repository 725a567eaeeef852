-- ===== src/Lending/Funding.antt =====
-- The funding of a contract (programs/stendar/src/instructions/lending.rs): a contribution, and the
-- activation of a contract that is funded.
pub mod Contribution
pub mod Slots
pub mod Opening
use stendar_l.Base.{
  ℕ, ◌+◌, ◌&&◌, ◌||◌, not, Bool, true, false, Option, none, some, List, [], ◌∷◌, ◌++◌, ltb, leb,
  ◌==◌, if◌then◌else◌,
}
use stendar_l.Base.Int.{ℤ, pos, ltb_ℤ}
use stendar_l.Base.Word.{u32_max, u64_max, checked_add, checked_sub}
use stendar_l.Error.{StendarError, Result, ok, ◌>>=◌, ◌>>◌, require, ok_or}
use stendar_l.State.Enums.{ContractStatus, status_eq, is_open}
use stendar_l.State.Contract.{
  Pubkey, DebtContract, default_key, current_account_version, update_bot_tracking,
}
use stendar_l.State.Accounts.{LenderContribution, LenderEscrow}
use stendar_l.Utils.Scale.{require_current_version}
use stendar_l.Ledger.{Ledger, Runtime, Seed}
use stendar_l.Lending.{
  ApprovedFunder, ensure_uninitialized_contribution, validate_funder_authorization,
  validate_not_self_funding, is_partial_funding_enabled, initialize_lender_contribution_fields,
}

-- Who contributes to which contract, how much and when: the arguments of
-- `finalize_contribution_to_contract`.
pub record Offering : Type 0 where
  pub contribution_key : Pubkey
  pub contract_key : Pubkey
  pub lender_key : Pubkey
  pub borrower_key : Pubkey
  pub amount : ℕ
  pub current_time : ℤ
  pub approved_funder : Option ApprovedFunder

-- The tests of `finalize_contribution_to_contract` before the slots are counted.
unfoldable pub may_contribute : DebtContract → LenderContribution → Offering → Result (Unit {0})
unfolding ensure_uninitialized_contribution validate_funder_authorization validate_not_self_funding
may_contribute c contribution o = do
  require_current_version c.account_version
  ensure_uninitialized_contribution contribution.account_version
  require (is_open c.status) StendarError.contract_not_open
  require (not (ltb_ℤ (pos 0) c.expires_at) || ltb_ℤ o.current_time c.expires_at)
      StendarError.contract_not_open
  require (ltb 0 o.amount) StendarError.invalid_contribution_amount
  require (c.borrower == o.borrower_key) StendarError.unauthorized_payment
  validate_funder_authorization c o.contract_key o.lender_key o.approved_funder
  validate_not_self_funding o.lender_key o.borrower_key
  require (ltb c.num_contributions c.max_lenders) StendarError.max_lenders_reached

-- Where partial funding is enabled, the lender in the last slot fills what remains.
unfoldable pub check_last_slot : DebtContract → ℕ → Result (Unit {0})
check_last_slot c amount = do
  next_contribution_count ←
      ok_or (checked_add u32_max c.num_contributions 1) StendarError.arithmetic_overflow
  if ltb next_contribution_count c.max_lenders then ok tt else (do
    remaining ← ok_or (checked_sub c.target_amount c.funded_amount) StendarError.arithmetic_overflow
    require (amount == remaining) StendarError.last_lender_must_fill_remaining)

-- Where it is not, one lender funds the whole.
unfoldable pub check_whole : DebtContract → ℕ → Result (Unit {0})
check_whole c amount =
    require (c.funded_amount == 0 && amount == c.target_amount)
      StendarError.partial_funding_disabled

unfoldable pub check_amount : DebtContract → ℕ → Result (Unit {0})
unfolding is_partial_funding_enabled check_last_slot check_whole
check_amount c amount =
    if is_partial_funding_enabled c then check_last_slot c amount else check_whole c amount

-- The escrow of a lender at its beginning.
unfoldable pub new_escrow : (lender_key contract_key : Pubkey) → ℤ → LenderEscrow
new_escrow lender_key contract_key current_time = record {
  lender = lender_key;
  contract = contract_key;
  escrow_amount = 0;
  available_interest = 0;
  available_principal = 0;
  total_claimed = 0;
  is_released = false;
  created_at = current_time;
  escrow_token_account = default_key;
  account_version = current_account_version;
}

-- A contract with a lender's contribution and escrow.
pub record Funded : Type 0 where
  pub contract : DebtContract
  pub contribution : LenderContribution
  pub escrow : LenderEscrow

-- `finalize_contribution_to_contract`
unfoldable pub finalize_contribution_to_contract :
    DebtContract → LenderContribution → Offering → Result Funded
unfolding may_contribute check_amount initialize_lender_contribution_fields new_escrow
finalize_contribution_to_contract c contribution o = do
  may_contribute c contribution o
  check_amount c o.amount
  new_funded_amount ←
      ok_or (checked_add u64_max c.funded_amount o.amount) StendarError.arithmetic_overflow
  require (leb new_funded_amount c.target_amount) StendarError.exceeds_target_amount
  num_contributions ←
      ok_or (checked_add u32_max c.num_contributions 1) StendarError.arithmetic_overflow
  ok (record {
    contract = record c {
      funded_amount = new_funded_amount;
      num_contributions = num_contributions;
      contributions = c.contributions ++ (o.contribution_key ∷ []);
    };
    contribution =
        initialize_lender_contribution_fields o.lender_key o.contract_key o.amount o.current_time;
    escrow = new_escrow o.lender_key o.contract_key o.current_time;
  })

-- The token accounts of an activation, if they are passed.
pub record FundingAccounts : Type 0 where
  pub contract_key : Pubkey
  pub borrower_key : Pubkey
  pub contract_usdc_account : Option Pubkey
  pub borrower_usdc_account : Option Pubkey

-- The contract as a revolving facility that is open for draws.
unfoldable pub open_facility : DebtContract → ℤ → DebtContract
open_facility c current_time =
    update_bot_tracking
      (record c {
        target_amount = c.funded_amount;
        status = ContractStatus.active;
        credit_limit = c.funded_amount;
        drawn_amount = 0;
        available_amount = c.funded_amount;
        outstanding_balance = 0;
        last_interest_update = pos 0;
        last_principal_payment = pos 0;
        last_standby_fee_update = current_time;
        revolving_closed = false;
      })
      current_time

-- The contract as a loan that runs.
unfoldable pub start_loan : DebtContract → ℤ → DebtContract
start_loan c current_time =
    update_bot_tracking
      (record c {
        target_amount = c.funded_amount;
        status = ContractStatus.active;
        outstanding_balance = c.funded_amount;
        last_interest_update = current_time;
        last_principal_payment = current_time;
      })
      current_time

-- The payment of a loan to its borrower.
unfoldable pub disburse : Runtime → Ledger → DebtContract → FundingAccounts → Result Ledger
disburse r tokens c a = do
  contract_usdc ← ok_or a.contract_usdc_account StendarError.missing_token_accounts
  borrower_usdc ← ok_or a.borrower_usdc_account StendarError.missing_token_accounts
  require
      ((tokens contract_usdc).owner == a.contract_key
        && (tokens contract_usdc).mint == c.loan_mint
        && contract_usdc == c.loan_token_account)
      StendarError.token_account_mismatch
  require
      ((tokens borrower_usdc).owner == a.borrower_key && (tokens borrower_usdc).mint == c.loan_mint)
      StendarError.token_account_mismatch
  require
      (r.find_program_address
          (Seed.text "debt_contract" ∷ Seed.key c.borrower ∷ Seed.u64_le c.contract_seed ∷ [])
        == a.contract_key)
      StendarError.invalid_contract_reference
  r.transfer tokens contract_usdc borrower_usdc a.contract_key c.funded_amount

-- `activate_open_contract_funding`
unfoldable pub activate_open_contract_funding :
    Runtime → Ledger → DebtContract → FundingAccounts → ℤ → Result (DebtContract × Ledger)
unfolding open_facility start_loan disburse
activate_open_contract_funding r tokens c a current_time = do
  require (ltb 0 c.funded_amount) StendarError.invalid_contribution_amount
  if c.is_revolving
      then ok (open_facility c current_time, tokens)
      else (do tokens' ← disburse r tokens c a; ok (start_loan c current_time, tokens'))

-- What follows the transfer of a contribution: a contract that is full is activated, and another one
-- is partially funded.
unfoldable pub advance_funding :
    Runtime → Ledger → DebtContract → FundingAccounts → ℤ → Result (DebtContract × Ledger)
unfolding activate_open_contract_funding
advance_funding r tokens c a current_time =
    if leb c.target_amount c.funded_amount
    then activate_open_contract_funding r tokens c a current_time
    else if status_eq c.status ContractStatus.open_not_funded
    then ok (
      update_bot_tracking (record c { status = ContractStatus.open_partially_funded }) current_time,
      tokens,
    )
    else ok (update_bot_tracking c current_time, tokens)
