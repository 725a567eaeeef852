-- ===== src/Lending.antt =====
-- The rules that the instructions of programs/stendar/src/instructions/lending.rs share: who may
-- fund a contract, when it is full enough, and when it may be liquidated.
pub mod Funding
pub mod Liquidate
pub mod Leave
use stendar_l.Base.{
  ℕ, ◌*◌, ◌-◌, ◌/◌, ◌&&◌, ◌||◌, not, Bool, true, false, Option, none, some, min, ltb, leb, ◌==◌,
  if◌then◌else◌,
}
use stendar_l.Base.Int.{ℤ, pos, ◌+ℤ◌, leb_ℤ}
use stendar_l.Base.Word.{u64_max, u128_max, checked_add, checked_mul, checked_i64, saturating_sub}
use stendar_l.Error.{StendarError, Result, ok, ◌>>=◌, ◌>>◌, require, ok_or}
use stendar_l.State.Enums.{ContractStatus, LoanType, FundingAccessMode, status_eq, is_committed}
use stendar_l.State.Contract.{Pubkey, DebtContract, current_account_version}
use stendar_l.State.Accounts.{LenderContribution}
use stendar_l.Utils.Scale.{require_current_version, mul_div_u64}

abbrev recall_fee_bps : ℕ
recall_fee_bps = 200

abbrev demand_loan_min_floor_bps : ℕ
demand_loan_min_floor_bps = 10_500

abbrev partial_funding_disabled_flag : ℕ
partial_funding_disabled_flag = 2

-- `ApprovedFunder`
pub record ApprovedFunder : Type 0 where
  pub contract : Pubkey
  pub lender : Pubkey
  pub approved_by : Pubkey
  pub created_at : ℤ
  pub account_version : ℕ

-- `validate_demand_recall_contract`
unfoldable pub validate_demand_recall_contract : DebtContract → Result (Unit {0})
validate_demand_recall_contract c =
    require (not (is_committed c.loan_type)) StendarError.not_demand_loan

-- `calculate_recall_fee`
unfoldable pub calculate_recall_fee : ℕ → Result ℕ
calculate_recall_fee recall_amount = mul_div_u64 recall_amount recall_fee_bps 10_000

-- `calculate_liquidation_debt`
unfoldable pub calculate_liquidation_debt : DebtContract → Result ℕ
calculate_liquidation_debt c =
    if c.is_revolving
    then (do
      drawn ←
          ok_or (checked_add u64_max c.drawn_amount c.accrued_interest)
            StendarError.arithmetic_overflow
      ok_or (checked_add u64_max drawn c.accrued_standby_fees) StendarError.arithmetic_overflow)
    else ok_or (checked_add u64_max c.outstanding_balance c.accrued_interest)
        StendarError.arithmetic_overflow

-- `is_price_liquidation_triggered`
unfoldable pub is_price_liquidation_triggered : ℕ → ℕ → ℕ → Result Bool
is_price_liquidation_triggered collateral_value_usdc debt_for_health_check ltv_floor_bps =
    if debt_for_health_check == 0 || ltv_floor_bps == 0 then ok false else (do
      collateral_side ←
          ok_or (checked_mul u128_max collateral_value_usdc 10_000) StendarError.arithmetic_overflow
      floor_side ←
          ok_or (checked_mul u128_max debt_for_health_check ltv_floor_bps)
            StendarError.arithmetic_overflow
      ok (leb collateral_side floor_side))

-- `validate_collateral_floor_bps`
unfoldable pub validate_collateral_floor_bps : ℕ → LoanType → ℕ → Result (Unit {0})
validate_collateral_floor_bps ltv_floor_bps loan_type min_committed_floor_bps = do
  require (ltb 0 ltv_floor_bps) StendarError.ltv_floor_below_minimum
  if is_committed loan_type
      then require (leb min_committed_floor_bps ltv_floor_bps) StendarError.ltv_floor_below_minimum
      else require (leb demand_loan_min_floor_bps ltv_floor_bps)
          StendarError.demand_loan_floor_too_low

-- `is_partial_funding_enabled`: the flags 0 and 1 enable it, every other one does not.
unfoldable pub is_partial_funding_enabled : DebtContract → Bool
is_partial_funding_enabled c = ltb c.partial_funding_flag partial_funding_disabled_flag

-- `has_met_partial_fill_threshold`
unfoldable pub has_met_partial_fill_threshold : DebtContract → Result Bool
has_met_partial_fill_threshold c =
    if c.funded_amount == 0 then ok false else if c.min_partial_fill_bps == 0 then ok true else (do
      funded_scaled ←
          ok_or (checked_mul u128_max c.funded_amount 10_000) StendarError.arithmetic_overflow
      required_scaled ←
          ok_or (checked_mul u128_max c.target_amount c.min_partial_fill_bps)
            StendarError.arithmetic_overflow
      ok (leb required_scaled funded_scaled))

-- `should_activate_on_expiry`
unfoldable pub should_activate_on_expiry : DebtContract → Result Bool
unfolding has_met_partial_fill_threshold
should_activate_on_expiry c =
    if c.allow_partial_fill then has_met_partial_fill_threshold c else ok false

abbrev is_allowlist_only : FundingAccessMode → Bool
is_allowlist_only FundingAccessMode.allowlist_only = true
is_allowlist_only FundingAccessMode.anyone = false

-- The test on the account that approves a lender, if it is passed.
unfoldable pub require_approval :
    (contract_key lender_key : Pubkey) → Option ApprovedFunder → Result (Unit {0})
require_approval contract_key lender_key approved_funder = do
  approved ← ok_or approved_funder StendarError.lender_not_approved
  require_current_version approved.account_version
  require (approved.contract == contract_key && approved.lender == lender_key)
      StendarError.invalid_approved_funder_account

-- `validate_funder_authorization`
unfoldable pub validate_funder_authorization :
    DebtContract → (contract_key lender_key : Pubkey) → Option ApprovedFunder → Result (Unit {0})
unfolding require_approval
validate_funder_authorization c contract_key lender_key approved_funder =
    if is_allowlist_only c.funding_access_mode
    then require_approval contract_key lender_key approved_funder
    else ok tt

-- `validate_not_self_funding`
unfoldable pub validate_not_self_funding : Pubkey → Pubkey → Result (Unit {0})
validate_not_self_funding lender_key borrower_key =
    require (not (lender_key == borrower_key)) StendarError.self_funding_not_allowed

-- `validate_close_listing_contract`
unfoldable pub validate_close_listing_contract : DebtContract → Result (Unit {0})
unfolding has_met_partial_fill_threshold
validate_close_listing_contract c = do
  require (status_eq c.status ContractStatus.open_partially_funded) StendarError.contract_not_open
  require c.allow_partial_fill StendarError.partial_fill_not_allowed
  require (ltb 0 c.funded_amount) StendarError.invalid_contribution_amount
  met ← has_met_partial_fill_threshold c
  require met StendarError.below_minimum_fill_threshold

-- `ensure_uninitialized_contribution`
unfoldable pub ensure_uninitialized_contribution : ℕ → Result (Unit {0})
ensure_uninitialized_contribution account_version =
    require (account_version == 0) StendarError.funder_already_approved

-- `initialize_lender_contribution_fields`
unfoldable pub initialize_lender_contribution_fields :
    (lender_key contract_key : Pubkey) → ℕ → ℤ → LenderContribution
initialize_lender_contribution_fields lender_key contract_key amount current_time = record {
  lender = lender_key;
  contract = contract_key;
  contribution_amount = amount;
  total_interest_claimed = 0;
  total_principal_claimed = 0;
  last_claim_timestamp = pos 0;
  is_refunded = false;
  created_at = current_time;
  last_contributed_at = current_time;
  account_version = current_account_version;
}

-- `approve_funder`, `approved_funder` the account as `init_if_needed` gives it.
unfoldable pub approve_funder :
    ApprovedFunder → (contract_key lender_key borrower : Pubkey) → ℤ → Result ApprovedFunder
approve_funder approved_funder contract_key lender_key borrower now = do
  require (not (lender_key == 0)) StendarError.invalid_approved_funder_account
  require
      (approved_funder.account_version == 0
        || (approved_funder.contract == contract_key && approved_funder.lender == lender_key))
      StendarError.invalid_approved_funder_account
  require (approved_funder.account_version == 0) StendarError.funder_already_approved
  ok (record {
    contract = contract_key;
    lender = lender_key;
    approved_by = borrower;
    created_at = now;
    account_version = current_account_version;
  })
