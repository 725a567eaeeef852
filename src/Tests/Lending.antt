-- ===== src/Tests/Lending.antt =====
-- The funding of a revolving contract of two lenders: the second contribution opens the facility.
use stendar_l.Base.{
  ℕ, ◌+◌, ◌<◌, ◌≡◌, ◌≢◌, inl, true, false, arith, refl, none, some, List, [], ◌∷◌, ◌==◌,
  if◌then◌else◌,
}
use stendar_l.Base.Int.{ℤ, pos}
use stendar_l.Error.{ok}
use stendar_l.State.Enums.{ContractStatus, is_open}
use stendar_l.State.Contract.{DebtContract}
use stendar_l.State.Accounts.{LenderContribution}
use stendar_l.Ledger.{Ledger}
use stendar_l.Revolving.Facility.{Facility}
use stendar_l.Lending.Funding.{Offering, Funded, finalize_contribution_to_contract}
use stendar_l.Lending.Funding.Contribution.{ContributeCall, contribute_to_contract}
use stendar_l.Lending.Funding.Slots.{IsFunding, finalize_contribution-IsFunding}
use stendar_l.Lending.Leave.{LenderCall, withdraw_contribution}
use stendar_l.Lending.Leave.Slots.{IsPaidBack, withdraw_contribution-IsFunding}
use stendar_l.Tests.Concrete.{
  simple_runtime, example_contract, example_facility, example_accounts, contribution_of, escrow_of,
  result_or,
}

-- Lender 1 has contributed 600 of 1,000, and one slot of two is left.
abbrev half_funded : DebtContract
half_funded = record example_contract {
  status = ContractStatus.open_partially_funded;
  funded_amount = 600;
  num_contributions = 1;
  contributions = 12_001 ∷ [];
  max_lenders = 2;
  drawn_amount = 0;
  available_amount = 0;
  outstanding_balance = 0;
  credit_limit = 0;
}

-- The contract's account 50 holds what was contributed, and lender 2 has the account 52.
abbrev lender_tokens : Ledger
lender_tokens k =
    if k == 50
    then record { owner = 100; mint = 70; amount = 600 }
    else if k == 52
    then record { owner = 2; mint = 70; amount = 500 }
    else record { owner = 0; mint = 0; amount = 0 }

abbrev offering : Offering
offering = record {
  contribution_key = 12_002;
  contract_key = 100;
  lender_key = 2;
  borrower_key = 5;
  amount = 400;
  current_time = pos 90_000;
  approved_funder = none;
}

abbrev contribute_call : ContributeCall
contribute_call = record {
  is_paused = false;
  lender_usdc_account = some 52;
  usdc_mint = some 70;
  accounts = record {
    contract_key = 100;
    borrower_key = 5;
    contract_usdc_account = some 50;
    borrower_usdc_account = none;
  };
}

abbrev new_contribution : LenderContribution
new_contribution = record (contribution_of 0 0) { account_version = 0 }

abbrev nothing : Funded
nothing = record { contract = half_funded; contribution = new_contribution; escrow = escrow_of 0 }

abbrev finalized : Funded
finalized =
    result_or nothing (finalize_contribution_to_contract half_funded new_contribution offering)

finalizes : finalize_contribution_to_contract half_funded new_contribution offering ≡ ok finalized
unfolding stendar_l.Lending.validate_demand_recall_contract stendar_l.Lending.calculate_recall_fee
    stendar_l.Lending.calculate_liquidation_debt stendar_l.Lending.is_price_liquidation_triggered
    stendar_l.Lending.validate_collateral_floor_bps stendar_l.Lending.is_partial_funding_enabled
    stendar_l.Lending.has_met_partial_fill_threshold stendar_l.Lending.should_activate_on_expiry
    stendar_l.Lending.require_approval stendar_l.Lending.validate_funder_authorization
    stendar_l.Lending.validate_not_self_funding stendar_l.Lending.validate_close_listing_contract
    stendar_l.Lending.ensure_uninitialized_contribution
    stendar_l.Lending.initialize_lender_contribution_fields stendar_l.Lending.approve_funder
    stendar_l.Lending.Funding.may_contribute stendar_l.Lending.Funding.check_last_slot
    stendar_l.Lending.Funding.check_whole stendar_l.Lending.Funding.check_amount
    stendar_l.Lending.Funding.new_escrow stendar_l.Lending.Funding.finalize_contribution_to_contract
    stendar_l.Lending.Funding.open_facility stendar_l.Lending.Funding.start_loan
    stendar_l.Lending.Funding.disburse stendar_l.Lending.Funding.activate_open_contract_funding
    stendar_l.Lending.Funding.advance_funding stendar_l.Lending.Funding.Contribution.check_given
    stendar_l.Lending.Funding.Contribution.check_key
    stendar_l.Lending.Funding.Contribution.require_funding_constraints
    stendar_l.Lending.Funding.Contribution.transfer_contribution
    stendar_l.Lending.Funding.Contribution.contribute_to_contract
    stendar_l.State.Contract.increment_proposal_count stendar_l.State.Contract.add_prepayment_fee
    stendar_l.State.Contract.calculate_next_interest_payment
    stendar_l.State.Contract.calculate_next_principal_payment
    stendar_l.State.Contract.determine_status_by_funding
    stendar_l.State.Contract.is_interest_payment_due
    stendar_l.State.Contract.is_principal_payment_due stendar_l.State.Contract.update_bot_tracking
    stendar_l.Utils.Scale.safe_u128_to_u64 stendar_l.Utils.Scale.mul_div
    stendar_l.Utils.Scale.mul_div_u64 stendar_l.Utils.Scale.require_current_version
    stendar_l.Utils.Fees.calculate_fee_tenths_bps stendar_l.Utils.Fees.calculate_frontend_share
    stendar_l.Base.Int.◌+ℤ◌
finalizes = refl

half_funded-IsFunding : IsFunding half_funded ((12_001, contribution_of 1 600) ∷ [])
half_funded-IsFunding = record {
  counted = refl;
  listed = λ key. refl;
  funded = refl;
  within = omega arith;
  slots = omega arith;
  full_when_taken = inl (omega arith);
}

finalize_contribution-IsFunding_example :
    IsFunding finalized.contract
      ((12_002, finalized.contribution) ∷ (12_001, contribution_of 1 600) ∷ [])
finalize_contribution-IsFunding_example =
    finalize_contribution-IsFunding half_funded new_contribution offering finalized
      ((12_001, contribution_of 1 600) ∷ []) finalizes half_funded-IsFunding

abbrev contributed : Funded × Ledger
contributed =
    result_or (nothing, lender_tokens)
      (contribute_to_contract simple_runtime lender_tokens half_funded new_contribution offering
        contribute_call)

abbrev opened_facility : Facility
opened_facility = record {
  contract_key = 100;
  contract = contributed.0.contract;
  state = example_facility.state;
  treasury_key = 60;
  treasury = example_facility.treasury;
  tokens = contributed.1;
  accounts = example_accounts;
}

-- Lender 1, whose account is 51, takes the 600 back from the contract.
abbrev leaving_tokens : Ledger
leaving_tokens k =
    if k == 50
    then record { owner = 100; mint = 70; amount = 600 }
    else if k == 51
    then record { owner = 1; mint = 70; amount = 0 }
    else record { owner = 0; mint = 0; amount = 0 }

abbrev leaving : LenderCall
leaving = record {
  lender = 1;
  contract_key = 100;
  contribution_key = 12_001;
  escrow_key = 6_001;
  token_program = true;
  contract_usdc_account = some 50;
  escrow_usdc_account = none;
  lender_usdc_account = some 51;
  current_time = pos 90_000;
}

abbrev left : DebtContract × Ledger
left =
    result_or (half_funded, leaving_tokens)
      (withdraw_contribution simple_runtime leaving_tokens half_funded (contribution_of 1 600)
        (escrow_of 1) leaving)

leaves :
    withdraw_contribution simple_runtime leaving_tokens half_funded
      (contribution_of 1 600)
      (escrow_of 1)
      leaving
    ≡ ok (left.0, left.1)
unfolding stendar_l.Lending.Leave.pay_lender stendar_l.Lending.Leave.may_withdraw_contribution
    stendar_l.Lending.Leave.remove_contribution stendar_l.Lending.Leave.withdraw_contribution
    stendar_l.State.Contract.update_bot_tracking stendar_l.Utils.Scale.require_current_version
    stendar_l.Base.Int.◌-ℤ◌ stendar_l.Base.Keys.remove_key stendar_l.Base.Keys.position
leaves = refl

withdraw_contribution-IsFunding_example :
    IsFunding left.0 []
    × (left.0.num_contributions < left.0.max_lenders)
    × (is_open half_funded.status ≡ true)
    × ((contribution_of 1 600).lender ≡ leaving.lender)
    × IsPaidBack simple_runtime leaving_tokens half_funded leaving 600 left.1
withdraw_contribution-IsFunding_example =
    withdraw_contribution-IsFunding simple_runtime leaving_tokens half_funded
      (contribution_of 1 600) (escrow_of 1) leaving [] left.0 left.1 leaves half_funded-IsFunding
