-- ===== src/Tests/Runs.antt =====
-- Runs of the instructions on a revolving facility.
use stendar_l.Base.{ℕ, ◌≡◌, ◌<◌, arith, refl, none, true, []}
use stendar_l.Base.Int.{ℤ, pos}
use stendar_l.Base.Keys.{length}
use stendar_l.Error.{ok}
use stendar_l.State.Enums.{ContractStatus}
use stendar_l.State.Contract.{DebtContract}
use stendar_l.Utils.Interest.{checkpoint_standby_fees}
use stendar_l.Revolving.Facility.{Facility, Caller}
use stendar_l.Revolving.Draw.{PriceAccounts, draw_from_revolving}
use stendar_l.Revolving.Repay.{repay_revolving}
use stendar_l.Revolving.Close.{close_revolving_facility, bot_close_matured_revolving}
use stendar_l.Revolving.Distribute.{distribute_standby_fees}
use stendar_l.Revolving.Sweep.{sweep_contract_pool}
use stendar_l.Tests.Concrete.{
  simple_runtime, example_contract, example_facility, example_caller, example_bot, result_or,
}

abbrev pub unsecured : PriceAccounts
unsecured = record { collateral_registry = none; price_feed_account = none }

-- A draw of 100.
abbrev pub drawn : Facility
drawn =
    result_or example_facility (
      draw_from_revolving simple_runtime example_facility example_caller unsecured 100 (pos 87_400))

pub draws_100 :
    draw_from_revolving simple_runtime example_facility example_caller unsecured 100 (pos 87_400)
    ≡ ok drawn
unfolding draw_from_revolving stendar_l.Utils.Scale.require_current_version
    stendar_l.Revolving.Facility.maturity stendar_l.Base.Int.◌+ℤ◌
    stendar_l.Revolving.Facility.bring_up_to_date stendar_l.Utils.Interest.checkpoint_standby_fees
    stendar_l.Base.Int.◌-ℤ◌ stendar_l.Utils.Interest.calculate_standby_fee
    stendar_l.Utils.Interest.annualized stendar_l.Utils.Scale.safe_u128_to_u64
    stendar_l.Utils.Interest.process_automatic_interest stendar_l.Utils.Interest.accrue_revolving
    stendar_l.Utils.Interest.calculate_interest
    stendar_l.Revolving.Pairs.require_revolving_contribution_pairs
    stendar_l.Revolving.Pairs.check_pairs stendar_l.Revolving.Pairs.check_pair
    stendar_l.Base.Keys.position stendar_l.Base.Keys.remove_key stendar_l.Base.Keys.swap_remove
    stendar_l.Revolving.Draw.may_draw stendar_l.Revolving.Draw.require_before_maturity
    stendar_l.Revolving.Draw.require_collateral stendar_l.Revolving.Draw.record_draw
    stendar_l.Revolving.Facility.require_contract_address
draws_100 = refl

-- The borrower closes the facility.
abbrev pub closed : Facility
closed =
    result_or example_facility
      (close_revolving_facility simple_runtime example_facility example_caller 61 (pos 87_400))

pub closes :
    close_revolving_facility simple_runtime example_facility example_caller 61 (pos 87_400)
    ≡ ok closed
unfolding close_revolving_facility stendar_l.Utils.Scale.require_current_version
    stendar_l.Revolving.Facility.maturity stendar_l.Base.Int.◌+ℤ◌
    stendar_l.Revolving.Facility.bring_up_to_date stendar_l.Utils.Interest.checkpoint_standby_fees
    stendar_l.Base.Int.◌-ℤ◌ stendar_l.Utils.Interest.calculate_standby_fee
    stendar_l.Utils.Interest.annualized stendar_l.Utils.Scale.safe_u128_to_u64
    stendar_l.Utils.Interest.process_automatic_interest stendar_l.Utils.Interest.accrue_revolving
    stendar_l.Utils.Interest.calculate_interest stendar_l.Revolving.Close.may_close
    stendar_l.Revolving.Close.early_termination_fee stendar_l.Revolving.Close.pay_termination_fee
    stendar_l.Revolving.Close.record_close stendar_l.Revolving.Repay.complete_if_done
    stendar_l.Utils.Interest.check_revolving_completion
closes = refl

-- The facility after a closing.
abbrev pub shut : Facility
shut = record example_facility {
  contract = record example_contract { revolving_closed = true; available_amount = 0 };
}

-- All that is drawn is repaid after the closing.
abbrev pub repaid : Facility
repaid =
    result_or example_facility (repay_revolving simple_runtime shut example_caller 200 (pos 87_400))

pub repays_200 : repay_revolving simple_runtime shut example_caller 200 (pos 87_400) ≡ ok repaid
unfolding repay_revolving stendar_l.Utils.Scale.require_current_version
    stendar_l.Revolving.Facility.maturity stendar_l.Base.Int.◌+ℤ◌
    stendar_l.Revolving.Facility.bring_up_to_date stendar_l.Utils.Interest.checkpoint_standby_fees
    stendar_l.Base.Int.◌-ℤ◌ stendar_l.Utils.Interest.calculate_standby_fee
    stendar_l.Utils.Interest.annualized stendar_l.Utils.Scale.safe_u128_to_u64
    stendar_l.Utils.Interest.process_automatic_interest stendar_l.Utils.Interest.accrue_revolving
    stendar_l.Utils.Interest.calculate_interest
    stendar_l.Revolving.Pairs.require_revolving_contribution_pairs
    stendar_l.Revolving.Pairs.check_pairs stendar_l.Revolving.Pairs.check_pair
    stendar_l.Base.Keys.position stendar_l.Base.Keys.remove_key stendar_l.Base.Keys.swap_remove
    stendar_l.Revolving.Repay.may_repay stendar_l.Revolving.Repay.record_repayment
    stendar_l.Utils.Interest.check_revolving_completion
repays_200 = refl

-- The bot closes the facility at its maturity.
abbrev pub matured : Facility
matured =
    result_or example_facility (bot_close_matured_revolving example_facility 9 (pos 2_593_001))

pub closes_matured : bot_close_matured_revolving example_facility 9 (pos 2_593_001) ≡ ok matured
unfolding bot_close_matured_revolving stendar_l.Utils.Scale.require_current_version
    stendar_l.Revolving.Facility.maturity stendar_l.Base.Int.◌+ℤ◌
    stendar_l.Revolving.Facility.bring_up_to_date stendar_l.Utils.Interest.checkpoint_standby_fees
    stendar_l.Base.Int.◌-ℤ◌ stendar_l.Utils.Interest.calculate_standby_fee
    stendar_l.Utils.Interest.annualized stendar_l.Utils.Scale.safe_u128_to_u64
    stendar_l.Utils.Interest.process_automatic_interest stendar_l.Utils.Interest.accrue_revolving
    stendar_l.Utils.Interest.calculate_interest stendar_l.Revolving.Close.may_bot_close
    stendar_l.Revolving.Close.record_close stendar_l.Revolving.Repay.complete_if_done
    stendar_l.Revolving.Facility.count_operation stendar_l.Utils.Interest.check_revolving_completion
closes_matured = refl

-- The accrued fees of 10 go to the lenders.
abbrev pub distributed : Facility
distributed =
    result_or example_facility
      (distribute_standby_fees simple_runtime example_facility example_bot (pos 87_400))

pub distributes_10 :
    distribute_standby_fees simple_runtime example_facility example_bot (pos 87_400)
    ≡ ok distributed
unfolding distribute_standby_fees stendar_l.Utils.Scale.require_current_version
    stendar_l.Revolving.Facility.maturity stendar_l.Base.Int.◌+ℤ◌
    stendar_l.Revolving.Facility.bring_up_to_date stendar_l.Utils.Interest.checkpoint_standby_fees
    stendar_l.Base.Int.◌-ℤ◌ stendar_l.Utils.Interest.calculate_standby_fee
    stendar_l.Utils.Interest.annualized stendar_l.Utils.Scale.safe_u128_to_u64
    stendar_l.Utils.Interest.process_automatic_interest stendar_l.Utils.Interest.accrue_revolving
    stendar_l.Utils.Interest.calculate_interest stendar_l.Revolving.Distribute.may_distribute
    stendar_l.Revolving.Distribute.distribute_all stendar_l.Revolving.Distribute.distribute_one
    stendar_l.Revolving.Distribute.read_lender stendar_l.Revolving.Distribute.lender_share
    stendar_l.Revolving.Distribute.pay_share stendar_l.Revolving.Distribute.record_distribution
    stendar_l.Utils.Scale.mul_div_u64 stendar_l.Revolving.Repay.complete_if_done
    stendar_l.Revolving.Facility.count_operation
    stendar_l.Revolving.Facility.require_contract_address
    stendar_l.Utils.Interest.check_revolving_completion stendar_l.Base.Keys.position
    stendar_l.Base.Keys.remove_key stendar_l.Base.Keys.swap_remove
distributes_10 = refl

abbrev pub checkpointed : DebtContract
checkpointed = result_or example_contract (checkpoint_standby_fees example_contract (pos 87_400))

pub checkpoints : checkpoint_standby_fees example_contract (pos 87_400) ≡ ok checkpointed
unfolding checkpoint_standby_fees stendar_l.Base.Int.◌-ℤ◌
    stendar_l.Utils.Interest.calculate_standby_fee stendar_l.Utils.Interest.annualized
    stendar_l.Utils.Scale.safe_u128_to_u64
checkpoints = refl

pub checkpointed-lenders : 0 < length checkpointed.contributions
unfolding checkpoint_standby_fees stendar_l.Base.Int.◌-ℤ◌
    stendar_l.Utils.Interest.calculate_standby_fee stendar_l.Utils.Interest.annualized
    stendar_l.Utils.Scale.safe_u128_to_u64
checkpointed-lenders = omega arith

pub checkpointed-funding : checkpointed.funded_amount ≡ 1_000
unfolding checkpoint_standby_fees stendar_l.Base.Int.◌-ℤ◌
    stendar_l.Utils.Interest.calculate_standby_fee stendar_l.Utils.Interest.annualized
    stendar_l.Utils.Scale.safe_u128_to_u64
checkpointed-funding = refl

abbrev pub finished : Facility
finished = record example_facility {
  contract = record example_contract {
    status = ContractStatus.completed;
    contributions = [];
    available_amount = 0;
  };
}

-- A finished contract's account is swept.
abbrev pub swept : Facility
swept = result_or example_facility (sweep_contract_pool simple_runtime finished example_caller)

pub sweeps_900 : sweep_contract_pool simple_runtime finished example_caller ≡ ok swept
unfolding sweep_contract_pool stendar_l.Revolving.Sweep.may_sweep
    stendar_l.Revolving.Facility.require_contract_address
    stendar_l.Utils.Scale.require_current_version
sweeps_900 = refl
