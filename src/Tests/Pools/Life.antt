-- ===== src/Tests/Pools/Life.antt =====
-- The life of a pool: its creation, a deposit, a withdrawal and its closing; a change of its terms;
-- and a deposit that is emptied and compounded.
use stendar_l.Base.{
  Option, ℕ, ◌+◌, ◌≤◌, ◌<◌, ◌≡◌, ◌≢◌, ◌⊎◌, true, false, arith, refl, none, some, List, [], ◌∷◌,
  ◌==◌, if◌then◌else◌, leb,
}
use stendar_l.Base.Int.{ℤ, pos, ◌+ℤ◌, ◌≤ℤ◌}
use stendar_l.Error.{ok}
use stendar_l.State.Pools.{PoolState, PoolDeposit}
use stendar_l.Utils.Fees.{calculate_fee_tenths_bps}
use stendar_l.Pools.Call.{Holding, PoolCall}
use stendar_l.Pools.Withdraw.{accrue, may_withdraw, withdraw_from_pool}
use stendar_l.Pools.Withdraw.Exits.{compounded_cannot_be_withdrawn}
use stendar_l.Pools.Deposit.{open_deposit, deposit_to_pool}
use stendar_l.Pools.Claim.{claim_pool_yield, compound_pool_yield}
use stendar_l.Pools.Changes.{
  NewPool, AuthorizedPoolOperator, PoolTerms, PendingPoolChange, create_pool, close_pool,
  propose_pool_changes, apply_pool_changes, pool_change_timelock_seconds,
}
use stendar_l.Pools.Changes.Timelock.{IsApplied, terms_wait_for_time_lock}
use stendar_l.Pools.Books.{Balanced}
use stendar_l.Pools.Books.Runs.{Run, opens, touches, withdraws, stop, next}
use stendar_l.Pools.Books.Balance.{created-Run-Balanced, closed_pool_holds_nothing}
use stendar_l.Tests.Concrete.{simple_runtime, result_or}
use stendar_l.Tests.Pools.{example_pool, example_deposit}
use stendar_l.State.Contract.{Pubkey}
use stendar_l.Tests.Pools.Runs.{fees_state, call, holding}

abbrev example_auth : AuthorizedPoolOperator
example_auth = record {
  operator = 3;
  authorized_by = 4;
  authorized_at = pos 500;
  account_version = 1;
}

abbrev example_new : NewPool
example_new = record {
  pool_seed = 0;
  rate_bps = 500;
  capacity = 0;
  minimum_deposit = 0;
  withdrawal_queue_enabled = false;
  allowed_loan_type = 0;
  min_ltv_bps = 0;
  max_term_days = 0;
}

abbrev created : PoolState
created =
    result_or example_pool (create_pool fees_state example_auth example_new 3 70 80 (pos 1_000))

creates : create_pool fees_state example_auth example_new 3 70 80 (pos 1_000) ≡ ok created
unfolding stendar_l.Pools.calculate_accrued_yield stendar_l.Pools.current_rate_start
    stendar_l.Pools.resolve_from stendar_l.Pools.oldest_rate
    stendar_l.Pools.resolve_rate_at_timestamp stendar_l.Pools.end_segment
    stendar_l.Pools.accrue_segments stendar_l.Pools.begin_current stendar_l.Pools.yield_since
    stendar_l.Pools.credit_yield stendar_l.Pools.accrue_deposit_yield
    stendar_l.Pools.Call.require_pool_active stendar_l.Pools.Call.refresh_pool_idle_since
    stendar_l.Pools.Call.clear_withdrawal_request stendar_l.Pools.Call.queue_withdrawal_request
    stendar_l.Pools.Call.require_own_deposit stendar_l.Pools.Call.require_vault_key
    stendar_l.Pools.Call.require_pool_token stendar_l.Pools.Call.require_treasury_account
    stendar_l.Pools.Withdraw.require_withdrawal_accounts
    stendar_l.Pools.Withdraw.require_withdrawal_constraints
    stendar_l.Pools.Withdraw.record_withdrawal stendar_l.Pools.Withdraw.pay_out
    stendar_l.Pools.Withdraw.accrue stendar_l.Pools.Withdraw.may_withdraw
    stendar_l.Pools.Withdraw.queue_withdrawal stendar_l.Pools.Withdraw.queue_or_refuse
    stendar_l.Pools.Withdraw.settle_withdrawal stendar_l.Pools.Withdraw.withdraw_from_pool
    stendar_l.Pools.Withdraw.request_pool_withdrawal stendar_l.Pools.Withdraw.may_process
    stendar_l.Pools.Withdraw.require_liquidity stendar_l.Pools.Withdraw.process_pool_withdrawal
    stendar_l.Pools.Withdraw.may_return stendar_l.Pools.Withdraw.returnable_amount
    stendar_l.Pools.Withdraw.operator_return_deposit stendar_l.Pools.Fees.frontend_share_of
    stendar_l.Pools.Fees.frontend_account stendar_l.Pools.Fees.transfer_shares
    stendar_l.Pools.Fees.transfer_whole stendar_l.Pools.Fees.transfer_fee
    stendar_l.Pools.Fees.collect_fee stendar_l.Pools.Deposit.initialize
    stendar_l.Pools.Deposit.may_deposit stendar_l.Pools.Deposit.open_deposit
    stendar_l.Pools.Deposit.require_deposit_accounts stendar_l.Pools.Deposit.require_capacity
    stendar_l.Pools.Deposit.set_frontend stendar_l.Pools.Deposit.record_deposit
    stendar_l.Pools.Deposit.pay_in stendar_l.Pools.Deposit.deposit_to_pool
    stendar_l.Pools.Claim.require_yield_accounts stendar_l.Pools.Claim.may_claim
    stendar_l.Pools.Claim.bot_may_claim stendar_l.Pools.Claim.split_yield
    stendar_l.Pools.Claim.record_claim stendar_l.Pools.Claim.collect_yield_fee
    stendar_l.Pools.Claim.pay_net_yield stendar_l.Pools.Claim.pay_yield
    stendar_l.Pools.Claim.claim_pool_yield stendar_l.Pools.Claim.bot_claim_pool_yield
    stendar_l.Pools.Claim.set_yield_preference stendar_l.Pools.Claim.may_compound
    stendar_l.Pools.Claim.record_compounding stendar_l.Pools.Claim.compound_yield
    stendar_l.Pools.Claim.compound_pool_yield stendar_l.State.Pools.available_liquidity
    stendar_l.State.Pools.add_pending_yield stendar_l.State.Pools.consume_pending_yield
    stendar_l.State.Pools.increment_pending_withdrawal_requests
    stendar_l.State.Pools.decrement_pending_withdrawal_requests
    stendar_l.State.Pools.initialize_rate_history stendar_l.State.Pools.rate_history_entry_count
    stendar_l.State.Pools.push_rate_history stendar_l.State.Pools.rate_history_entry_at
    stendar_l.Pools.Changes.initialize_operator stendar_l.Pools.Changes.authorize_pool_operator
    stendar_l.Pools.Changes.new_pool stendar_l.Pools.Changes.create_pool
    stendar_l.Pools.Changes.propose_pool_changes
    stendar_l.Pools.Changes.validate_pool_change_compatibility stendar_l.Pools.Changes.apply_rate
    stendar_l.Pools.Changes.apply_terms stendar_l.Pools.Changes.apply_pool_changes
    stendar_l.Pools.Changes.cancel_pool_changes stendar_l.Pools.Changes.pause_pool
    stendar_l.Pools.Changes.resume_pool stendar_l.Pools.Changes.close_pool
    stendar_l.Pools.Changes.expire_idle_pool stendar_l.Utils.Interest.annualized
    stendar_l.Utils.Scale.safe_u128_to_u64 stendar_l.Utils.Scale.mul_div
    stendar_l.Utils.Scale.mul_div_u64 stendar_l.Utils.Scale.require_current_version
    stendar_l.Utils.Fees.calculate_fee_tenths_bps stendar_l.Utils.Fees.calculate_frontend_share
    stendar_l.Base.Int.◌-ℤ◌ stendar_l.Base.Int.◌+ℤ◌
creates = refl

-- The depositor's account is new.
abbrev before_opening : Holding
before_opening = record holding {
  pool = created;
  deposit = record example_deposit {
    depositor = 0;
    pool = 0;
    deposit_amount = 0;
    deferred_yield = 0;
    account_version = 0;
  };
}

abbrev opened : Holding
opened = result_or before_opening (deposit_to_pool simple_runtime call before_opening 1_000_000)

opens_account : deposit_to_pool simple_runtime call before_opening 1_000_000 ≡ ok opened
unfolding stendar_l.Pools.calculate_accrued_yield stendar_l.Pools.current_rate_start
    stendar_l.Pools.resolve_from stendar_l.Pools.oldest_rate
    stendar_l.Pools.resolve_rate_at_timestamp stendar_l.Pools.end_segment
    stendar_l.Pools.accrue_segments stendar_l.Pools.begin_current stendar_l.Pools.yield_since
    stendar_l.Pools.credit_yield stendar_l.Pools.accrue_deposit_yield
    stendar_l.Pools.Call.require_pool_active stendar_l.Pools.Call.refresh_pool_idle_since
    stendar_l.Pools.Call.clear_withdrawal_request stendar_l.Pools.Call.queue_withdrawal_request
    stendar_l.Pools.Call.require_own_deposit stendar_l.Pools.Call.require_vault_key
    stendar_l.Pools.Call.require_pool_token stendar_l.Pools.Call.require_treasury_account
    stendar_l.Pools.Withdraw.require_withdrawal_accounts
    stendar_l.Pools.Withdraw.require_withdrawal_constraints
    stendar_l.Pools.Withdraw.record_withdrawal stendar_l.Pools.Withdraw.pay_out
    stendar_l.Pools.Withdraw.accrue stendar_l.Pools.Withdraw.may_withdraw
    stendar_l.Pools.Withdraw.queue_withdrawal stendar_l.Pools.Withdraw.queue_or_refuse
    stendar_l.Pools.Withdraw.settle_withdrawal stendar_l.Pools.Withdraw.withdraw_from_pool
    stendar_l.Pools.Withdraw.request_pool_withdrawal stendar_l.Pools.Withdraw.may_process
    stendar_l.Pools.Withdraw.require_liquidity stendar_l.Pools.Withdraw.process_pool_withdrawal
    stendar_l.Pools.Withdraw.may_return stendar_l.Pools.Withdraw.returnable_amount
    stendar_l.Pools.Withdraw.operator_return_deposit stendar_l.Pools.Fees.frontend_share_of
    stendar_l.Pools.Fees.frontend_account stendar_l.Pools.Fees.transfer_shares
    stendar_l.Pools.Fees.transfer_whole stendar_l.Pools.Fees.transfer_fee
    stendar_l.Pools.Fees.collect_fee stendar_l.Pools.Deposit.initialize
    stendar_l.Pools.Deposit.may_deposit stendar_l.Pools.Deposit.open_deposit
    stendar_l.Pools.Deposit.require_deposit_accounts stendar_l.Pools.Deposit.require_capacity
    stendar_l.Pools.Deposit.set_frontend stendar_l.Pools.Deposit.record_deposit
    stendar_l.Pools.Deposit.pay_in stendar_l.Pools.Deposit.deposit_to_pool
    stendar_l.Pools.Claim.require_yield_accounts stendar_l.Pools.Claim.may_claim
    stendar_l.Pools.Claim.bot_may_claim stendar_l.Pools.Claim.split_yield
    stendar_l.Pools.Claim.record_claim stendar_l.Pools.Claim.collect_yield_fee
    stendar_l.Pools.Claim.pay_net_yield stendar_l.Pools.Claim.pay_yield
    stendar_l.Pools.Claim.claim_pool_yield stendar_l.Pools.Claim.bot_claim_pool_yield
    stendar_l.Pools.Claim.set_yield_preference stendar_l.Pools.Claim.may_compound
    stendar_l.Pools.Claim.record_compounding stendar_l.Pools.Claim.compound_yield
    stendar_l.Pools.Claim.compound_pool_yield stendar_l.State.Pools.available_liquidity
    stendar_l.State.Pools.add_pending_yield stendar_l.State.Pools.consume_pending_yield
    stendar_l.State.Pools.increment_pending_withdrawal_requests
    stendar_l.State.Pools.decrement_pending_withdrawal_requests
    stendar_l.State.Pools.initialize_rate_history stendar_l.State.Pools.rate_history_entry_count
    stendar_l.State.Pools.push_rate_history stendar_l.State.Pools.rate_history_entry_at
    stendar_l.Pools.Changes.initialize_operator stendar_l.Pools.Changes.authorize_pool_operator
    stendar_l.Pools.Changes.new_pool stendar_l.Pools.Changes.create_pool
    stendar_l.Pools.Changes.propose_pool_changes
    stendar_l.Pools.Changes.validate_pool_change_compatibility stendar_l.Pools.Changes.apply_rate
    stendar_l.Pools.Changes.apply_terms stendar_l.Pools.Changes.apply_pool_changes
    stendar_l.Pools.Changes.cancel_pool_changes stendar_l.Pools.Changes.pause_pool
    stendar_l.Pools.Changes.resume_pool stendar_l.Pools.Changes.close_pool
    stendar_l.Pools.Changes.expire_idle_pool stendar_l.Utils.Interest.annualized
    stendar_l.Utils.Scale.safe_u128_to_u64 stendar_l.Utils.Scale.mul_div
    stendar_l.Utils.Scale.mul_div_u64 stendar_l.Utils.Scale.require_current_version
    stendar_l.Utils.Fees.calculate_fee_tenths_bps stendar_l.Utils.Fees.calculate_frontend_share
    stendar_l.Base.Int.◌-ℤ◌ stendar_l.Base.Int.◌+ℤ◌
opens_account = refl

abbrev left : Holding
left = result_or opened (withdraw_from_pool simple_runtime call opened 999_000)

leaves : withdraw_from_pool simple_runtime call opened 999_000 ≡ ok left
unfolding stendar_l.Pools.calculate_accrued_yield stendar_l.Pools.current_rate_start
    stendar_l.Pools.resolve_from stendar_l.Pools.oldest_rate
    stendar_l.Pools.resolve_rate_at_timestamp stendar_l.Pools.end_segment
    stendar_l.Pools.accrue_segments stendar_l.Pools.begin_current stendar_l.Pools.yield_since
    stendar_l.Pools.credit_yield stendar_l.Pools.accrue_deposit_yield
    stendar_l.Pools.Call.require_pool_active stendar_l.Pools.Call.refresh_pool_idle_since
    stendar_l.Pools.Call.clear_withdrawal_request stendar_l.Pools.Call.queue_withdrawal_request
    stendar_l.Pools.Call.require_own_deposit stendar_l.Pools.Call.require_vault_key
    stendar_l.Pools.Call.require_pool_token stendar_l.Pools.Call.require_treasury_account
    stendar_l.Pools.Withdraw.require_withdrawal_accounts
    stendar_l.Pools.Withdraw.require_withdrawal_constraints
    stendar_l.Pools.Withdraw.record_withdrawal stendar_l.Pools.Withdraw.pay_out
    stendar_l.Pools.Withdraw.accrue stendar_l.Pools.Withdraw.may_withdraw
    stendar_l.Pools.Withdraw.queue_withdrawal stendar_l.Pools.Withdraw.queue_or_refuse
    stendar_l.Pools.Withdraw.settle_withdrawal stendar_l.Pools.Withdraw.withdraw_from_pool
    stendar_l.Pools.Withdraw.request_pool_withdrawal stendar_l.Pools.Withdraw.may_process
    stendar_l.Pools.Withdraw.require_liquidity stendar_l.Pools.Withdraw.process_pool_withdrawal
    stendar_l.Pools.Withdraw.may_return stendar_l.Pools.Withdraw.returnable_amount
    stendar_l.Pools.Withdraw.operator_return_deposit stendar_l.Pools.Fees.frontend_share_of
    stendar_l.Pools.Fees.frontend_account stendar_l.Pools.Fees.transfer_shares
    stendar_l.Pools.Fees.transfer_whole stendar_l.Pools.Fees.transfer_fee
    stendar_l.Pools.Fees.collect_fee stendar_l.Pools.Deposit.initialize
    stendar_l.Pools.Deposit.may_deposit stendar_l.Pools.Deposit.open_deposit
    stendar_l.Pools.Deposit.require_deposit_accounts stendar_l.Pools.Deposit.require_capacity
    stendar_l.Pools.Deposit.set_frontend stendar_l.Pools.Deposit.record_deposit
    stendar_l.Pools.Deposit.pay_in stendar_l.Pools.Deposit.deposit_to_pool
    stendar_l.Pools.Claim.require_yield_accounts stendar_l.Pools.Claim.may_claim
    stendar_l.Pools.Claim.bot_may_claim stendar_l.Pools.Claim.split_yield
    stendar_l.Pools.Claim.record_claim stendar_l.Pools.Claim.collect_yield_fee
    stendar_l.Pools.Claim.pay_net_yield stendar_l.Pools.Claim.pay_yield
    stendar_l.Pools.Claim.claim_pool_yield stendar_l.Pools.Claim.bot_claim_pool_yield
    stendar_l.Pools.Claim.set_yield_preference stendar_l.Pools.Claim.may_compound
    stendar_l.Pools.Claim.record_compounding stendar_l.Pools.Claim.compound_yield
    stendar_l.Pools.Claim.compound_pool_yield stendar_l.State.Pools.available_liquidity
    stendar_l.State.Pools.add_pending_yield stendar_l.State.Pools.consume_pending_yield
    stendar_l.State.Pools.increment_pending_withdrawal_requests
    stendar_l.State.Pools.decrement_pending_withdrawal_requests
    stendar_l.State.Pools.initialize_rate_history stendar_l.State.Pools.rate_history_entry_count
    stendar_l.State.Pools.push_rate_history stendar_l.State.Pools.rate_history_entry_at
    stendar_l.Pools.Changes.initialize_operator stendar_l.Pools.Changes.authorize_pool_operator
    stendar_l.Pools.Changes.new_pool stendar_l.Pools.Changes.create_pool
    stendar_l.Pools.Changes.propose_pool_changes
    stendar_l.Pools.Changes.validate_pool_change_compatibility stendar_l.Pools.Changes.apply_rate
    stendar_l.Pools.Changes.apply_terms stendar_l.Pools.Changes.apply_pool_changes
    stendar_l.Pools.Changes.cancel_pool_changes stendar_l.Pools.Changes.pause_pool
    stendar_l.Pools.Changes.resume_pool stendar_l.Pools.Changes.close_pool
    stendar_l.Pools.Changes.expire_idle_pool stendar_l.Utils.Interest.annualized
    stendar_l.Utils.Scale.safe_u128_to_u64 stendar_l.Utils.Scale.mul_div
    stendar_l.Utils.Scale.mul_div_u64 stendar_l.Utils.Scale.require_current_version
    stendar_l.Utils.Fees.calculate_fee_tenths_bps stendar_l.Utils.Fees.calculate_frontend_share
    stendar_l.Base.Int.◌-ℤ◌ stendar_l.Base.Int.◌+ℤ◌
leaves = refl

abbrev shut : PoolState
shut = result_or left.pool (close_pool left.pool 3)

shuts : close_pool left.pool 3 ≡ ok shut
unfolding stendar_l.Pools.calculate_accrued_yield stendar_l.Pools.current_rate_start
    stendar_l.Pools.resolve_from stendar_l.Pools.oldest_rate
    stendar_l.Pools.resolve_rate_at_timestamp stendar_l.Pools.end_segment
    stendar_l.Pools.accrue_segments stendar_l.Pools.begin_current stendar_l.Pools.yield_since
    stendar_l.Pools.credit_yield stendar_l.Pools.accrue_deposit_yield
    stendar_l.Pools.Call.require_pool_active stendar_l.Pools.Call.refresh_pool_idle_since
    stendar_l.Pools.Call.clear_withdrawal_request stendar_l.Pools.Call.queue_withdrawal_request
    stendar_l.Pools.Call.require_own_deposit stendar_l.Pools.Call.require_vault_key
    stendar_l.Pools.Call.require_pool_token stendar_l.Pools.Call.require_treasury_account
    stendar_l.Pools.Withdraw.require_withdrawal_accounts
    stendar_l.Pools.Withdraw.require_withdrawal_constraints
    stendar_l.Pools.Withdraw.record_withdrawal stendar_l.Pools.Withdraw.pay_out
    stendar_l.Pools.Withdraw.accrue stendar_l.Pools.Withdraw.may_withdraw
    stendar_l.Pools.Withdraw.queue_withdrawal stendar_l.Pools.Withdraw.queue_or_refuse
    stendar_l.Pools.Withdraw.settle_withdrawal stendar_l.Pools.Withdraw.withdraw_from_pool
    stendar_l.Pools.Withdraw.request_pool_withdrawal stendar_l.Pools.Withdraw.may_process
    stendar_l.Pools.Withdraw.require_liquidity stendar_l.Pools.Withdraw.process_pool_withdrawal
    stendar_l.Pools.Withdraw.may_return stendar_l.Pools.Withdraw.returnable_amount
    stendar_l.Pools.Withdraw.operator_return_deposit stendar_l.Pools.Fees.frontend_share_of
    stendar_l.Pools.Fees.frontend_account stendar_l.Pools.Fees.transfer_shares
    stendar_l.Pools.Fees.transfer_whole stendar_l.Pools.Fees.transfer_fee
    stendar_l.Pools.Fees.collect_fee stendar_l.Pools.Deposit.initialize
    stendar_l.Pools.Deposit.may_deposit stendar_l.Pools.Deposit.open_deposit
    stendar_l.Pools.Deposit.require_deposit_accounts stendar_l.Pools.Deposit.require_capacity
    stendar_l.Pools.Deposit.set_frontend stendar_l.Pools.Deposit.record_deposit
    stendar_l.Pools.Deposit.pay_in stendar_l.Pools.Deposit.deposit_to_pool
    stendar_l.Pools.Claim.require_yield_accounts stendar_l.Pools.Claim.may_claim
    stendar_l.Pools.Claim.bot_may_claim stendar_l.Pools.Claim.split_yield
    stendar_l.Pools.Claim.record_claim stendar_l.Pools.Claim.collect_yield_fee
    stendar_l.Pools.Claim.pay_net_yield stendar_l.Pools.Claim.pay_yield
    stendar_l.Pools.Claim.claim_pool_yield stendar_l.Pools.Claim.bot_claim_pool_yield
    stendar_l.Pools.Claim.set_yield_preference stendar_l.Pools.Claim.may_compound
    stendar_l.Pools.Claim.record_compounding stendar_l.Pools.Claim.compound_yield
    stendar_l.Pools.Claim.compound_pool_yield stendar_l.State.Pools.available_liquidity
    stendar_l.State.Pools.add_pending_yield stendar_l.State.Pools.consume_pending_yield
    stendar_l.State.Pools.increment_pending_withdrawal_requests
    stendar_l.State.Pools.decrement_pending_withdrawal_requests
    stendar_l.State.Pools.initialize_rate_history stendar_l.State.Pools.rate_history_entry_count
    stendar_l.State.Pools.push_rate_history stendar_l.State.Pools.rate_history_entry_at
    stendar_l.Pools.Changes.initialize_operator stendar_l.Pools.Changes.authorize_pool_operator
    stendar_l.Pools.Changes.new_pool stendar_l.Pools.Changes.create_pool
    stendar_l.Pools.Changes.propose_pool_changes
    stendar_l.Pools.Changes.validate_pool_change_compatibility stendar_l.Pools.Changes.apply_rate
    stendar_l.Pools.Changes.apply_terms stendar_l.Pools.Changes.apply_pool_changes
    stendar_l.Pools.Changes.cancel_pool_changes stendar_l.Pools.Changes.pause_pool
    stendar_l.Pools.Changes.resume_pool stendar_l.Pools.Changes.close_pool
    stendar_l.Pools.Changes.expire_idle_pool stendar_l.Utils.Interest.annualized
    stendar_l.Utils.Scale.safe_u128_to_u64 stendar_l.Utils.Scale.mul_div
    stendar_l.Utils.Scale.mul_div_u64 stendar_l.Utils.Scale.require_current_version
    stendar_l.Utils.Fees.calculate_fee_tenths_bps stendar_l.Utils.Fees.calculate_frontend_share
    stendar_l.Base.Int.◌-ℤ◌ stendar_l.Base.Int.◌+ℤ◌
shuts = refl

example-Run : Run simple_runtime created [] left.pool (left.deposit ∷ [])
example-Run =
    next created opened.pool left.pool [] (opened.deposit ∷ []) (left.deposit ∷ [])
      (opens before_opening opened call 1_000_000 [] refl opens_account)
      (next opened.pool left.pool left.pool (opened.deposit ∷ []) (left.deposit ∷ [])
        (left.deposit ∷ []) (touches opened left [] [] (withdraws opened left call 999_000 leaves))
        (stop left.pool (left.deposit ∷ [])))

created-Run-Balanced_example : Balanced left.pool (left.deposit ∷ [])
created-Run-Balanced_example =
    created-Run-Balanced simple_runtime fees_state example_auth example_new 3 70 80 (pos 1_000)
      created left.pool (left.deposit ∷ []) creates example-Run

closed_pool_holds_nothing_example : left.deposit.deposit_amount ≡ 0
closed_pool_holds_nothing_example =
    closed_pool_holds_nothing simple_runtime fees_state example_auth example_new 3 70 80 (pos 1_000)
      created left.pool shut [] left.deposit [] 3 creates example-Run shuts

-- A higher capacity, proposed at one time and applied after the time lock.
abbrev example_terms : PoolTerms
example_terms = record {
  rate_bps = some 600;
  capacity = some 50_000_000;
  minimum_deposit = none;
  allowed_loan_type = none;
  min_ltv_bps = none;
  max_term_days = none;
  withdrawal_queue_enabled = some false;
}

abbrev example_pending : PendingPoolChange
example_pending = record {
  pool = 90;
  operator = 3;
  proposed_at = pos 100_000;
  effective_at = pos 359_200;
  terms = example_terms;
  account_version = 1;
}

proposes : propose_pool_changes example_pool 90 3 example_terms (pos 100_000) ≡ ok example_pending
unfolding stendar_l.Pools.calculate_accrued_yield stendar_l.Pools.current_rate_start
    stendar_l.Pools.resolve_from stendar_l.Pools.oldest_rate
    stendar_l.Pools.resolve_rate_at_timestamp stendar_l.Pools.end_segment
    stendar_l.Pools.accrue_segments stendar_l.Pools.begin_current stendar_l.Pools.yield_since
    stendar_l.Pools.credit_yield stendar_l.Pools.accrue_deposit_yield
    stendar_l.Pools.Call.require_pool_active stendar_l.Pools.Call.refresh_pool_idle_since
    stendar_l.Pools.Call.clear_withdrawal_request stendar_l.Pools.Call.queue_withdrawal_request
    stendar_l.Pools.Call.require_own_deposit stendar_l.Pools.Call.require_vault_key
    stendar_l.Pools.Call.require_pool_token stendar_l.Pools.Call.require_treasury_account
    stendar_l.Pools.Withdraw.require_withdrawal_accounts
    stendar_l.Pools.Withdraw.require_withdrawal_constraints
    stendar_l.Pools.Withdraw.record_withdrawal stendar_l.Pools.Withdraw.pay_out
    stendar_l.Pools.Withdraw.accrue stendar_l.Pools.Withdraw.may_withdraw
    stendar_l.Pools.Withdraw.queue_withdrawal stendar_l.Pools.Withdraw.queue_or_refuse
    stendar_l.Pools.Withdraw.settle_withdrawal stendar_l.Pools.Withdraw.withdraw_from_pool
    stendar_l.Pools.Withdraw.request_pool_withdrawal stendar_l.Pools.Withdraw.may_process
    stendar_l.Pools.Withdraw.require_liquidity stendar_l.Pools.Withdraw.process_pool_withdrawal
    stendar_l.Pools.Withdraw.may_return stendar_l.Pools.Withdraw.returnable_amount
    stendar_l.Pools.Withdraw.operator_return_deposit stendar_l.Pools.Fees.frontend_share_of
    stendar_l.Pools.Fees.frontend_account stendar_l.Pools.Fees.transfer_shares
    stendar_l.Pools.Fees.transfer_whole stendar_l.Pools.Fees.transfer_fee
    stendar_l.Pools.Fees.collect_fee stendar_l.Pools.Deposit.initialize
    stendar_l.Pools.Deposit.may_deposit stendar_l.Pools.Deposit.open_deposit
    stendar_l.Pools.Deposit.require_deposit_accounts stendar_l.Pools.Deposit.require_capacity
    stendar_l.Pools.Deposit.set_frontend stendar_l.Pools.Deposit.record_deposit
    stendar_l.Pools.Deposit.pay_in stendar_l.Pools.Deposit.deposit_to_pool
    stendar_l.Pools.Claim.require_yield_accounts stendar_l.Pools.Claim.may_claim
    stendar_l.Pools.Claim.bot_may_claim stendar_l.Pools.Claim.split_yield
    stendar_l.Pools.Claim.record_claim stendar_l.Pools.Claim.collect_yield_fee
    stendar_l.Pools.Claim.pay_net_yield stendar_l.Pools.Claim.pay_yield
    stendar_l.Pools.Claim.claim_pool_yield stendar_l.Pools.Claim.bot_claim_pool_yield
    stendar_l.Pools.Claim.set_yield_preference stendar_l.Pools.Claim.may_compound
    stendar_l.Pools.Claim.record_compounding stendar_l.Pools.Claim.compound_yield
    stendar_l.Pools.Claim.compound_pool_yield stendar_l.State.Pools.available_liquidity
    stendar_l.State.Pools.add_pending_yield stendar_l.State.Pools.consume_pending_yield
    stendar_l.State.Pools.increment_pending_withdrawal_requests
    stendar_l.State.Pools.decrement_pending_withdrawal_requests
    stendar_l.State.Pools.initialize_rate_history stendar_l.State.Pools.rate_history_entry_count
    stendar_l.State.Pools.push_rate_history stendar_l.State.Pools.rate_history_entry_at
    stendar_l.Pools.Changes.initialize_operator stendar_l.Pools.Changes.authorize_pool_operator
    stendar_l.Pools.Changes.new_pool stendar_l.Pools.Changes.create_pool
    stendar_l.Pools.Changes.propose_pool_changes
    stendar_l.Pools.Changes.validate_pool_change_compatibility stendar_l.Pools.Changes.apply_rate
    stendar_l.Pools.Changes.apply_terms stendar_l.Pools.Changes.apply_pool_changes
    stendar_l.Pools.Changes.cancel_pool_changes stendar_l.Pools.Changes.pause_pool
    stendar_l.Pools.Changes.resume_pool stendar_l.Pools.Changes.close_pool
    stendar_l.Pools.Changes.expire_idle_pool stendar_l.Utils.Interest.annualized
    stendar_l.Utils.Scale.safe_u128_to_u64 stendar_l.Utils.Scale.mul_div
    stendar_l.Utils.Scale.mul_div_u64 stendar_l.Utils.Scale.require_current_version
    stendar_l.Utils.Fees.calculate_fee_tenths_bps stendar_l.Utils.Fees.calculate_frontend_share
    stendar_l.Base.Int.◌-ℤ◌ stendar_l.Base.Int.◌+ℤ◌
proposes = refl

abbrev changed : PoolState × Option PendingPoolChange
changed =
    result_or (example_pool, none)
      (apply_pool_changes example_pool example_pending 90 3 (pos 360_000))

changes :
    apply_pool_changes example_pool example_pending 90 3 (pos 360_000) ≡ ok (changed.0, changed.1)
unfolding stendar_l.Pools.calculate_accrued_yield stendar_l.Pools.current_rate_start
    stendar_l.Pools.resolve_from stendar_l.Pools.oldest_rate
    stendar_l.Pools.resolve_rate_at_timestamp stendar_l.Pools.end_segment
    stendar_l.Pools.accrue_segments stendar_l.Pools.begin_current stendar_l.Pools.yield_since
    stendar_l.Pools.credit_yield stendar_l.Pools.accrue_deposit_yield
    stendar_l.Pools.Call.require_pool_active stendar_l.Pools.Call.refresh_pool_idle_since
    stendar_l.Pools.Call.clear_withdrawal_request stendar_l.Pools.Call.queue_withdrawal_request
    stendar_l.Pools.Call.require_own_deposit stendar_l.Pools.Call.require_vault_key
    stendar_l.Pools.Call.require_pool_token stendar_l.Pools.Call.require_treasury_account
    stendar_l.Pools.Withdraw.require_withdrawal_accounts
    stendar_l.Pools.Withdraw.require_withdrawal_constraints
    stendar_l.Pools.Withdraw.record_withdrawal stendar_l.Pools.Withdraw.pay_out
    stendar_l.Pools.Withdraw.accrue stendar_l.Pools.Withdraw.may_withdraw
    stendar_l.Pools.Withdraw.queue_withdrawal stendar_l.Pools.Withdraw.queue_or_refuse
    stendar_l.Pools.Withdraw.settle_withdrawal stendar_l.Pools.Withdraw.withdraw_from_pool
    stendar_l.Pools.Withdraw.request_pool_withdrawal stendar_l.Pools.Withdraw.may_process
    stendar_l.Pools.Withdraw.require_liquidity stendar_l.Pools.Withdraw.process_pool_withdrawal
    stendar_l.Pools.Withdraw.may_return stendar_l.Pools.Withdraw.returnable_amount
    stendar_l.Pools.Withdraw.operator_return_deposit stendar_l.Pools.Fees.frontend_share_of
    stendar_l.Pools.Fees.frontend_account stendar_l.Pools.Fees.transfer_shares
    stendar_l.Pools.Fees.transfer_whole stendar_l.Pools.Fees.transfer_fee
    stendar_l.Pools.Fees.collect_fee stendar_l.Pools.Deposit.initialize
    stendar_l.Pools.Deposit.may_deposit stendar_l.Pools.Deposit.open_deposit
    stendar_l.Pools.Deposit.require_deposit_accounts stendar_l.Pools.Deposit.require_capacity
    stendar_l.Pools.Deposit.set_frontend stendar_l.Pools.Deposit.record_deposit
    stendar_l.Pools.Deposit.pay_in stendar_l.Pools.Deposit.deposit_to_pool
    stendar_l.Pools.Claim.require_yield_accounts stendar_l.Pools.Claim.may_claim
    stendar_l.Pools.Claim.bot_may_claim stendar_l.Pools.Claim.split_yield
    stendar_l.Pools.Claim.record_claim stendar_l.Pools.Claim.collect_yield_fee
    stendar_l.Pools.Claim.pay_net_yield stendar_l.Pools.Claim.pay_yield
    stendar_l.Pools.Claim.claim_pool_yield stendar_l.Pools.Claim.bot_claim_pool_yield
    stendar_l.Pools.Claim.set_yield_preference stendar_l.Pools.Claim.may_compound
    stendar_l.Pools.Claim.record_compounding stendar_l.Pools.Claim.compound_yield
    stendar_l.Pools.Claim.compound_pool_yield stendar_l.State.Pools.available_liquidity
    stendar_l.State.Pools.add_pending_yield stendar_l.State.Pools.consume_pending_yield
    stendar_l.State.Pools.increment_pending_withdrawal_requests
    stendar_l.State.Pools.decrement_pending_withdrawal_requests
    stendar_l.State.Pools.initialize_rate_history stendar_l.State.Pools.rate_history_entry_count
    stendar_l.State.Pools.push_rate_history stendar_l.State.Pools.rate_history_entry_at
    stendar_l.Pools.Changes.initialize_operator stendar_l.Pools.Changes.authorize_pool_operator
    stendar_l.Pools.Changes.new_pool stendar_l.Pools.Changes.create_pool
    stendar_l.Pools.Changes.propose_pool_changes
    stendar_l.Pools.Changes.validate_pool_change_compatibility stendar_l.Pools.Changes.apply_rate
    stendar_l.Pools.Changes.apply_terms stendar_l.Pools.Changes.apply_pool_changes
    stendar_l.Pools.Changes.cancel_pool_changes stendar_l.Pools.Changes.pause_pool
    stendar_l.Pools.Changes.resume_pool stendar_l.Pools.Changes.close_pool
    stendar_l.Pools.Changes.expire_idle_pool stendar_l.Utils.Interest.annualized
    stendar_l.Utils.Scale.safe_u128_to_u64 stendar_l.Utils.Scale.mul_div
    stendar_l.Utils.Scale.mul_div_u64 stendar_l.Utils.Scale.require_current_version
    stendar_l.Utils.Fees.calculate_fee_tenths_bps stendar_l.Utils.Fees.calculate_frontend_share
    stendar_l.Base.Int.◌-ℤ◌ stendar_l.Base.Int.◌+ℤ◌
changes = refl

abbrev operator_key : Pubkey
operator_key = 3

terms_wait_for_time_lock_example :
    IsApplied example_pool example_pending (pos 360_000) changed.0
    × (operator_key ≡ operator_key)
    × (example_pool.operator ≡ operator_key)
    × (example_terms ≡ example_terms)
    × (changed.1 ≡ none)
    × (pos 100_000 +ℤ pool_change_timelock_seconds ≤ℤ pos 360_000)
terms_wait_for_time_lock_example =
    terms_wait_for_time_lock example_pool example_pool 90 3 3 example_terms (pos 100_000)
      (pos 360_000) example_pending changed.0 changed.1 proposes changes

-- A deposit that was emptied while yield of 1,000,000 was still owed on it.
abbrev emptied : Holding
emptied = record holding {
  pool = record example_pool {
    current_total_deposits = 0;
    current_utilized = 0;
    num_depositors = 0;
    total_pending_yield = 1_000_000;
  };
  deposit = record example_deposit {
    deposit_amount = 0;
    accrued_yield = 1_000_000;
    deferred_yield = 0;
    last_yield_update = pos 87_400;
  };
}

abbrev compounded : Holding
compounded = result_or emptied (compound_pool_yield simple_runtime call emptied)

compounds_last : compound_pool_yield simple_runtime call emptied ≡ ok compounded
unfolding stendar_l.Pools.calculate_accrued_yield stendar_l.Pools.current_rate_start
    stendar_l.Pools.resolve_from stendar_l.Pools.oldest_rate
    stendar_l.Pools.resolve_rate_at_timestamp stendar_l.Pools.end_segment
    stendar_l.Pools.accrue_segments stendar_l.Pools.begin_current stendar_l.Pools.yield_since
    stendar_l.Pools.credit_yield stendar_l.Pools.accrue_deposit_yield
    stendar_l.Pools.Call.require_pool_active stendar_l.Pools.Call.refresh_pool_idle_since
    stendar_l.Pools.Call.clear_withdrawal_request stendar_l.Pools.Call.queue_withdrawal_request
    stendar_l.Pools.Call.require_own_deposit stendar_l.Pools.Call.require_vault_key
    stendar_l.Pools.Call.require_pool_token stendar_l.Pools.Call.require_treasury_account
    stendar_l.Pools.Withdraw.require_withdrawal_accounts
    stendar_l.Pools.Withdraw.require_withdrawal_constraints
    stendar_l.Pools.Withdraw.record_withdrawal stendar_l.Pools.Withdraw.pay_out
    stendar_l.Pools.Withdraw.accrue stendar_l.Pools.Withdraw.may_withdraw
    stendar_l.Pools.Withdraw.queue_withdrawal stendar_l.Pools.Withdraw.queue_or_refuse
    stendar_l.Pools.Withdraw.settle_withdrawal stendar_l.Pools.Withdraw.withdraw_from_pool
    stendar_l.Pools.Withdraw.request_pool_withdrawal stendar_l.Pools.Withdraw.may_process
    stendar_l.Pools.Withdraw.require_liquidity stendar_l.Pools.Withdraw.process_pool_withdrawal
    stendar_l.Pools.Withdraw.may_return stendar_l.Pools.Withdraw.returnable_amount
    stendar_l.Pools.Withdraw.operator_return_deposit stendar_l.Pools.Fees.frontend_share_of
    stendar_l.Pools.Fees.frontend_account stendar_l.Pools.Fees.transfer_shares
    stendar_l.Pools.Fees.transfer_whole stendar_l.Pools.Fees.transfer_fee
    stendar_l.Pools.Fees.collect_fee stendar_l.Pools.Deposit.initialize
    stendar_l.Pools.Deposit.may_deposit stendar_l.Pools.Deposit.open_deposit
    stendar_l.Pools.Deposit.require_deposit_accounts stendar_l.Pools.Deposit.require_capacity
    stendar_l.Pools.Deposit.set_frontend stendar_l.Pools.Deposit.record_deposit
    stendar_l.Pools.Deposit.pay_in stendar_l.Pools.Deposit.deposit_to_pool
    stendar_l.Pools.Claim.require_yield_accounts stendar_l.Pools.Claim.may_claim
    stendar_l.Pools.Claim.bot_may_claim stendar_l.Pools.Claim.split_yield
    stendar_l.Pools.Claim.record_claim stendar_l.Pools.Claim.collect_yield_fee
    stendar_l.Pools.Claim.pay_net_yield stendar_l.Pools.Claim.pay_yield
    stendar_l.Pools.Claim.claim_pool_yield stendar_l.Pools.Claim.bot_claim_pool_yield
    stendar_l.Pools.Claim.set_yield_preference stendar_l.Pools.Claim.may_compound
    stendar_l.Pools.Claim.record_compounding stendar_l.Pools.Claim.compound_yield
    stendar_l.Pools.Claim.compound_pool_yield stendar_l.State.Pools.available_liquidity
    stendar_l.State.Pools.add_pending_yield stendar_l.State.Pools.consume_pending_yield
    stendar_l.State.Pools.increment_pending_withdrawal_requests
    stendar_l.State.Pools.decrement_pending_withdrawal_requests
    stendar_l.State.Pools.initialize_rate_history stendar_l.State.Pools.rate_history_entry_count
    stendar_l.State.Pools.push_rate_history stendar_l.State.Pools.rate_history_entry_at
    stendar_l.Pools.Changes.initialize_operator stendar_l.Pools.Changes.authorize_pool_operator
    stendar_l.Pools.Changes.new_pool stendar_l.Pools.Changes.create_pool
    stendar_l.Pools.Changes.propose_pool_changes
    stendar_l.Pools.Changes.validate_pool_change_compatibility stendar_l.Pools.Changes.apply_rate
    stendar_l.Pools.Changes.apply_terms stendar_l.Pools.Changes.apply_pool_changes
    stendar_l.Pools.Changes.cancel_pool_changes stendar_l.Pools.Changes.pause_pool
    stendar_l.Pools.Changes.resume_pool stendar_l.Pools.Changes.close_pool
    stendar_l.Pools.Changes.expire_idle_pool stendar_l.Utils.Interest.annualized
    stendar_l.Utils.Scale.safe_u128_to_u64 stendar_l.Utils.Scale.mul_div
    stendar_l.Utils.Scale.mul_div_u64 stendar_l.Utils.Scale.require_current_version
    stendar_l.Utils.Fees.calculate_fee_tenths_bps stendar_l.Utils.Fees.calculate_frontend_share
    stendar_l.Base.Int.◌-ℤ◌ stendar_l.Base.Int.◌+ℤ◌
compounds_last = refl

amount_of_all : 999_000 ≡ compounded.deposit.deposit_amount
unfolding stendar_l.Pools.calculate_accrued_yield stendar_l.Pools.current_rate_start
    stendar_l.Pools.resolve_from stendar_l.Pools.oldest_rate
    stendar_l.Pools.resolve_rate_at_timestamp stendar_l.Pools.end_segment
    stendar_l.Pools.accrue_segments stendar_l.Pools.begin_current stendar_l.Pools.yield_since
    stendar_l.Pools.credit_yield stendar_l.Pools.accrue_deposit_yield
    stendar_l.Pools.Call.require_pool_active stendar_l.Pools.Call.refresh_pool_idle_since
    stendar_l.Pools.Call.clear_withdrawal_request stendar_l.Pools.Call.queue_withdrawal_request
    stendar_l.Pools.Call.require_own_deposit stendar_l.Pools.Call.require_vault_key
    stendar_l.Pools.Call.require_pool_token stendar_l.Pools.Call.require_treasury_account
    stendar_l.Pools.Withdraw.require_withdrawal_accounts
    stendar_l.Pools.Withdraw.require_withdrawal_constraints
    stendar_l.Pools.Withdraw.record_withdrawal stendar_l.Pools.Withdraw.pay_out
    stendar_l.Pools.Withdraw.accrue stendar_l.Pools.Withdraw.may_withdraw
    stendar_l.Pools.Withdraw.queue_withdrawal stendar_l.Pools.Withdraw.queue_or_refuse
    stendar_l.Pools.Withdraw.settle_withdrawal stendar_l.Pools.Withdraw.withdraw_from_pool
    stendar_l.Pools.Withdraw.request_pool_withdrawal stendar_l.Pools.Withdraw.may_process
    stendar_l.Pools.Withdraw.require_liquidity stendar_l.Pools.Withdraw.process_pool_withdrawal
    stendar_l.Pools.Withdraw.may_return stendar_l.Pools.Withdraw.returnable_amount
    stendar_l.Pools.Withdraw.operator_return_deposit stendar_l.Pools.Fees.frontend_share_of
    stendar_l.Pools.Fees.frontend_account stendar_l.Pools.Fees.transfer_shares
    stendar_l.Pools.Fees.transfer_whole stendar_l.Pools.Fees.transfer_fee
    stendar_l.Pools.Fees.collect_fee stendar_l.Pools.Deposit.initialize
    stendar_l.Pools.Deposit.may_deposit stendar_l.Pools.Deposit.open_deposit
    stendar_l.Pools.Deposit.require_deposit_accounts stendar_l.Pools.Deposit.require_capacity
    stendar_l.Pools.Deposit.set_frontend stendar_l.Pools.Deposit.record_deposit
    stendar_l.Pools.Deposit.pay_in stendar_l.Pools.Deposit.deposit_to_pool
    stendar_l.Pools.Claim.require_yield_accounts stendar_l.Pools.Claim.may_claim
    stendar_l.Pools.Claim.bot_may_claim stendar_l.Pools.Claim.split_yield
    stendar_l.Pools.Claim.record_claim stendar_l.Pools.Claim.collect_yield_fee
    stendar_l.Pools.Claim.pay_net_yield stendar_l.Pools.Claim.pay_yield
    stendar_l.Pools.Claim.claim_pool_yield stendar_l.Pools.Claim.bot_claim_pool_yield
    stendar_l.Pools.Claim.set_yield_preference stendar_l.Pools.Claim.may_compound
    stendar_l.Pools.Claim.record_compounding stendar_l.Pools.Claim.compound_yield
    stendar_l.Pools.Claim.compound_pool_yield stendar_l.State.Pools.available_liquidity
    stendar_l.State.Pools.add_pending_yield stendar_l.State.Pools.consume_pending_yield
    stendar_l.State.Pools.increment_pending_withdrawal_requests
    stendar_l.State.Pools.decrement_pending_withdrawal_requests
    stendar_l.State.Pools.initialize_rate_history stendar_l.State.Pools.rate_history_entry_count
    stendar_l.State.Pools.push_rate_history stendar_l.State.Pools.rate_history_entry_at
    stendar_l.Pools.Changes.initialize_operator stendar_l.Pools.Changes.authorize_pool_operator
    stendar_l.Pools.Changes.new_pool stendar_l.Pools.Changes.create_pool
    stendar_l.Pools.Changes.propose_pool_changes
    stendar_l.Pools.Changes.validate_pool_change_compatibility stendar_l.Pools.Changes.apply_rate
    stendar_l.Pools.Changes.apply_terms stendar_l.Pools.Changes.apply_pool_changes
    stendar_l.Pools.Changes.cancel_pool_changes stendar_l.Pools.Changes.pause_pool
    stendar_l.Pools.Changes.resume_pool stendar_l.Pools.Changes.close_pool
    stendar_l.Pools.Changes.expire_idle_pool stendar_l.Utils.Interest.annualized
    stendar_l.Utils.Scale.safe_u128_to_u64 stendar_l.Utils.Scale.mul_div
    stendar_l.Utils.Scale.mul_div_u64 stendar_l.Utils.Scale.require_current_version
    stendar_l.Utils.Fees.calculate_fee_tenths_bps stendar_l.Utils.Fees.calculate_frontend_share
    stendar_l.Base.Int.◌-ℤ◌ stendar_l.Base.Int.◌+ℤ◌
amount_of_all = refl

compounded_cannot_be_withdrawn_example :
    withdraw_from_pool simple_runtime call compounded 999_000 ≢ ok compounded
compounded_cannot_be_withdrawn_example =
    compounded_cannot_be_withdrawn simple_runtime call call emptied compounded 999_000 compounded
      compounds_last refl refl (omega arith) (omega arith) amount_of_all
