-- ===== src/Tests/Pools/Runs.antt =====
-- Runs of the instructions on a pool, and an instance of each result on them.
use stendar_l.Base.{
  ℕ, ◌+◌, ◌≤◌, ◌<◌, ◌≡◌, ◌≢◌, ◌⊎◌, true, false, arith, refl, none, some, List, [], ◌∷◌, ◌==◌,
  if◌then◌else◌, leb,
}
use stendar_l.Base.Int.{ℤ, pos, ◌+ℤ◌, ◌≤ℤ◌}
use stendar_l.Error.{ok}
use stendar_l.State.Accounts.{PlatformState}
use stendar_l.State.Pools.{PoolState, PoolDeposit}
use stendar_l.Utils.Fees.{calculate_fee_tenths_bps}
use stendar_l.Ledger.{Ledger}
use stendar_l.Pools.{accrue_deposit_yield}
use stendar_l.Pools.Call.{Holding, PoolCall}
use stendar_l.Pools.Withdraw.{accrue, may_withdraw, withdraw_from_pool}
use stendar_l.Pools.Withdraw.Effect.{IsPaidOut, IsWaiting, withdraw_from_pool-pays_or_queues}
use stendar_l.Pools.Withdraw.Exits.{deposit_then_withdraw, IsOwnRequest, withdraw_from_pool_pays}
use stendar_l.Pools.Deposit.{open_deposit, deposit_to_pool}
use stendar_l.Pools.Claim.{claim_pool_yield, compound_pool_yield}
use stendar_l.Tests.Concrete.{simple_runtime, simple_transfer, example_facility, result_or}
use stendar_l.Tests.Pools.{example_pool, example_deposit}

-- The pool is 90, its vault 80, the depositor 4 with the token account 41, the treasury 60 with the
-- token account 61. The deposit fee and the yield fee are 0.1%.
abbrev pub fees_state : PlatformState
fees_state = record example_facility.state { pool_deposit_fee_bps = 100; pool_yield_fee_bps = 100 }

abbrev pub pool_tokens : Ledger
pool_tokens k =
    if k == 80
    then record { owner = 90; mint = 70; amount = 20_000_000 }
    else if k == 41
    then record { owner = 4; mint = 70; amount = 5_000_000 }
    else record { owner = 60; mint = 70; amount = 0 }

abbrev pub call_at : ℤ → PoolCall
call_at now = record {
  signer = 4;
  depositor = 4;
  pool_key = 90;
  state = fees_state;
  treasury_key = 60;
  pool_vault = 80;
  depositor_usdc_ata = 41;
  treasury_usdc_account = 61;
  frontend_operator = none;
  frontend_usdc_ata = none;
  now = now;
}

abbrev pub call : PoolCall
call = call_at (pos 87_400)

abbrev pub holding : Holding
holding = record {
  pool = example_pool;
  deposit = example_deposit;
  treasury = example_facility.treasury;
  tokens = pool_tokens;
}

-- A withdrawal of 1,000,000, of which there is enough.
abbrev withdrawn : Holding
withdrawn = result_or holding (withdraw_from_pool simple_runtime call holding 1_000_000)

withdraws_1m : withdraw_from_pool simple_runtime call holding 1_000_000 ≡ ok withdrawn
unfolding stendar_l.Pools.calculate_accrued_yield stendar_l.Pools.current_rate_start
    stendar_l.Pools.resolve_from stendar_l.Pools.oldest_rate
    stendar_l.Pools.resolve_rate_at_timestamp stendar_l.Pools.end_segment
    stendar_l.Pools.accrue_segments stendar_l.Pools.begin_current stendar_l.Pools.yield_since
    stendar_l.Pools.credit_yield stendar_l.Pools.accrue_deposit_yield
    stendar_l.Pools.Call.require_pool_active stendar_l.Pools.Call.refresh_pool_idle_since
    stendar_l.Pools.Call.clear_withdrawal_request stendar_l.Pools.Call.queue_withdrawal_request
    stendar_l.Pools.Call.require_own_deposit stendar_l.Pools.Call.require_vault_key
    stendar_l.Pools.Call.require_pool_token stendar_l.Pools.Call.require_treasury_account
    stendar_l.Pools.Withdraw.require_withdrawal_accounts
    stendar_l.Pools.Withdraw.require_withdrawal_constraints
    stendar_l.Pools.Withdraw.record_withdrawal stendar_l.Pools.Withdraw.pay_out
    stendar_l.Pools.Withdraw.accrue stendar_l.Pools.Withdraw.may_withdraw
    stendar_l.Pools.Withdraw.queue_withdrawal stendar_l.Pools.Withdraw.queue_or_refuse
    stendar_l.Pools.Withdraw.settle_withdrawal stendar_l.Pools.Withdraw.withdraw_from_pool
    stendar_l.Pools.Withdraw.request_pool_withdrawal stendar_l.Pools.Withdraw.may_process
    stendar_l.Pools.Withdraw.require_liquidity stendar_l.Pools.Withdraw.process_pool_withdrawal
    stendar_l.Pools.Withdraw.may_return stendar_l.Pools.Withdraw.returnable_amount
    stendar_l.Pools.Withdraw.operator_return_deposit stendar_l.Pools.Fees.frontend_share_of
    stendar_l.Pools.Fees.frontend_account stendar_l.Pools.Fees.transfer_shares
    stendar_l.Pools.Fees.transfer_whole stendar_l.Pools.Fees.transfer_fee
    stendar_l.Pools.Fees.collect_fee stendar_l.Pools.Deposit.initialize
    stendar_l.Pools.Deposit.may_deposit stendar_l.Pools.Deposit.open_deposit
    stendar_l.Pools.Deposit.require_deposit_accounts stendar_l.Pools.Deposit.require_capacity
    stendar_l.Pools.Deposit.set_frontend stendar_l.Pools.Deposit.record_deposit
    stendar_l.Pools.Deposit.pay_in stendar_l.Pools.Deposit.deposit_to_pool
    stendar_l.Pools.Claim.require_yield_accounts stendar_l.Pools.Claim.may_claim
    stendar_l.Pools.Claim.bot_may_claim stendar_l.Pools.Claim.split_yield
    stendar_l.Pools.Claim.record_claim stendar_l.Pools.Claim.collect_yield_fee
    stendar_l.Pools.Claim.pay_net_yield stendar_l.Pools.Claim.pay_yield
    stendar_l.Pools.Claim.claim_pool_yield stendar_l.Pools.Claim.bot_claim_pool_yield
    stendar_l.Pools.Claim.set_yield_preference stendar_l.Pools.Claim.may_compound
    stendar_l.Pools.Claim.record_compounding stendar_l.Pools.Claim.compound_yield
    stendar_l.Pools.Claim.compound_pool_yield stendar_l.State.Pools.available_liquidity
    stendar_l.State.Pools.add_pending_yield stendar_l.State.Pools.consume_pending_yield
    stendar_l.State.Pools.increment_pending_withdrawal_requests
    stendar_l.State.Pools.decrement_pending_withdrawal_requests
    stendar_l.State.Pools.initialize_rate_history stendar_l.State.Pools.rate_history_entry_count
    stendar_l.State.Pools.push_rate_history stendar_l.State.Pools.rate_history_entry_at
    stendar_l.Utils.Interest.annualized stendar_l.Utils.Scale.safe_u128_to_u64
    stendar_l.Utils.Scale.mul_div stendar_l.Utils.Scale.mul_div_u64
    stendar_l.Utils.Scale.require_current_version stendar_l.Utils.Fees.calculate_fee_tenths_bps
    stendar_l.Utils.Fees.calculate_frontend_share stendar_l.Base.Int.◌-ℤ◌ stendar_l.Base.Int.◌+ℤ◌
withdraws_1m = refl

withdraw_from_pool-pays_or_queues_example :
    (1_000_000 + 4_000_000 ≤ 10_000_000) × IsPaidOut simple_runtime call holding 1_000_000 withdrawn
    ⊎ ((10_000_000 < 1_000_000 + 4_000_000)
        × (false ≡ true)
        × IsWaiting call holding 1_000_000 withdrawn)
withdraw_from_pool-pays_or_queues_example =
    withdraw_from_pool-pays_or_queues simple_runtime call holding 1_000_000 withdrawn withdraws_1m
      (omega arith) (omega arith)

abbrev accrued : ℕ × PoolState × PoolDeposit
accrued =
    result_or (0, example_pool, example_deposit)
      (accrue_deposit_yield example_pool example_deposit (pos 87_400))

accrues_day :
    accrue_deposit_yield example_pool example_deposit (pos 87_400)
    ≡ ok (accrued.0, accrued.1, accrued.2)
unfolding stendar_l.Pools.calculate_accrued_yield stendar_l.Pools.current_rate_start
    stendar_l.Pools.resolve_from stendar_l.Pools.oldest_rate
    stendar_l.Pools.resolve_rate_at_timestamp stendar_l.Pools.end_segment
    stendar_l.Pools.accrue_segments stendar_l.Pools.begin_current stendar_l.Pools.yield_since
    stendar_l.Pools.credit_yield stendar_l.Pools.accrue_deposit_yield
    stendar_l.Pools.Call.require_pool_active stendar_l.Pools.Call.refresh_pool_idle_since
    stendar_l.Pools.Call.clear_withdrawal_request stendar_l.Pools.Call.queue_withdrawal_request
    stendar_l.Pools.Call.require_own_deposit stendar_l.Pools.Call.require_vault_key
    stendar_l.Pools.Call.require_pool_token stendar_l.Pools.Call.require_treasury_account
    stendar_l.Pools.Withdraw.require_withdrawal_accounts
    stendar_l.Pools.Withdraw.require_withdrawal_constraints
    stendar_l.Pools.Withdraw.record_withdrawal stendar_l.Pools.Withdraw.pay_out
    stendar_l.Pools.Withdraw.accrue stendar_l.Pools.Withdraw.may_withdraw
    stendar_l.Pools.Withdraw.queue_withdrawal stendar_l.Pools.Withdraw.queue_or_refuse
    stendar_l.Pools.Withdraw.settle_withdrawal stendar_l.Pools.Withdraw.withdraw_from_pool
    stendar_l.Pools.Withdraw.request_pool_withdrawal stendar_l.Pools.Withdraw.may_process
    stendar_l.Pools.Withdraw.require_liquidity stendar_l.Pools.Withdraw.process_pool_withdrawal
    stendar_l.Pools.Withdraw.may_return stendar_l.Pools.Withdraw.returnable_amount
    stendar_l.Pools.Withdraw.operator_return_deposit stendar_l.Pools.Fees.frontend_share_of
    stendar_l.Pools.Fees.frontend_account stendar_l.Pools.Fees.transfer_shares
    stendar_l.Pools.Fees.transfer_whole stendar_l.Pools.Fees.transfer_fee
    stendar_l.Pools.Fees.collect_fee stendar_l.Pools.Deposit.initialize
    stendar_l.Pools.Deposit.may_deposit stendar_l.Pools.Deposit.open_deposit
    stendar_l.Pools.Deposit.require_deposit_accounts stendar_l.Pools.Deposit.require_capacity
    stendar_l.Pools.Deposit.set_frontend stendar_l.Pools.Deposit.record_deposit
    stendar_l.Pools.Deposit.pay_in stendar_l.Pools.Deposit.deposit_to_pool
    stendar_l.Pools.Claim.require_yield_accounts stendar_l.Pools.Claim.may_claim
    stendar_l.Pools.Claim.bot_may_claim stendar_l.Pools.Claim.split_yield
    stendar_l.Pools.Claim.record_claim stendar_l.Pools.Claim.collect_yield_fee
    stendar_l.Pools.Claim.pay_net_yield stendar_l.Pools.Claim.pay_yield
    stendar_l.Pools.Claim.claim_pool_yield stendar_l.Pools.Claim.bot_claim_pool_yield
    stendar_l.Pools.Claim.set_yield_preference stendar_l.Pools.Claim.may_compound
    stendar_l.Pools.Claim.record_compounding stendar_l.Pools.Claim.compound_yield
    stendar_l.Pools.Claim.compound_pool_yield stendar_l.State.Pools.available_liquidity
    stendar_l.State.Pools.add_pending_yield stendar_l.State.Pools.consume_pending_yield
    stendar_l.State.Pools.increment_pending_withdrawal_requests
    stendar_l.State.Pools.decrement_pending_withdrawal_requests
    stendar_l.State.Pools.initialize_rate_history stendar_l.State.Pools.rate_history_entry_count
    stendar_l.State.Pools.push_rate_history stendar_l.State.Pools.rate_history_entry_at
    stendar_l.Utils.Interest.annualized stendar_l.Utils.Scale.safe_u128_to_u64
    stendar_l.Utils.Scale.mul_div stendar_l.Utils.Scale.mul_div_u64
    stendar_l.Utils.Scale.require_current_version stendar_l.Utils.Fees.calculate_fee_tenths_bps
    stendar_l.Utils.Fees.calculate_frontend_share stendar_l.Base.Int.◌-ℤ◌ stendar_l.Base.Int.◌+ℤ◌
accrues_day = refl

asks_1m : IsOwnRequest call holding 1_000_000
asks_1m = record {
  depositor = refl;
  of_pool = refl;
  positive = omega arith;
  within = omega arith;
  vault = refl;
  vault_owner = refl;
  vault_mint = refl;
  payee = refl;
  payee_mint = refl;
  pool_version = refl;
  deposit_version = refl;
}

abbrev paid_1m : Ledger
paid_1m = result_or pool_tokens (simple_transfer pool_tokens 80 41 90 1_000_000)

withdraw_from_pool_pays_example :
    (h' : Holding) × (withdraw_from_pool simple_runtime call holding 1_000_000 ≡ ok h')
    × (h'.tokens ≡ paid_1m)
    × (h'.deposit.deposit_amount + 1_000_000 ≡ 10_000_000)
withdraw_from_pool_pays_example =
    withdraw_from_pool_pays simple_runtime call holding 1_000_000 accrued.0 accrued.1 accrued.2
      paid_1m asks_1m accrues_day (omega arith) (omega arith) refl (omega arith)

-- A deposit of 1,000,000.
abbrev deposited : Holding
deposited = result_or holding (deposit_to_pool simple_runtime call holding 1_000_000)

deposits_1m : deposit_to_pool simple_runtime call holding 1_000_000 ≡ ok deposited
unfolding stendar_l.Pools.calculate_accrued_yield stendar_l.Pools.current_rate_start
    stendar_l.Pools.resolve_from stendar_l.Pools.oldest_rate
    stendar_l.Pools.resolve_rate_at_timestamp stendar_l.Pools.end_segment
    stendar_l.Pools.accrue_segments stendar_l.Pools.begin_current stendar_l.Pools.yield_since
    stendar_l.Pools.credit_yield stendar_l.Pools.accrue_deposit_yield
    stendar_l.Pools.Call.require_pool_active stendar_l.Pools.Call.refresh_pool_idle_since
    stendar_l.Pools.Call.clear_withdrawal_request stendar_l.Pools.Call.queue_withdrawal_request
    stendar_l.Pools.Call.require_own_deposit stendar_l.Pools.Call.require_vault_key
    stendar_l.Pools.Call.require_pool_token stendar_l.Pools.Call.require_treasury_account
    stendar_l.Pools.Withdraw.require_withdrawal_accounts
    stendar_l.Pools.Withdraw.require_withdrawal_constraints
    stendar_l.Pools.Withdraw.record_withdrawal stendar_l.Pools.Withdraw.pay_out
    stendar_l.Pools.Withdraw.accrue stendar_l.Pools.Withdraw.may_withdraw
    stendar_l.Pools.Withdraw.queue_withdrawal stendar_l.Pools.Withdraw.queue_or_refuse
    stendar_l.Pools.Withdraw.settle_withdrawal stendar_l.Pools.Withdraw.withdraw_from_pool
    stendar_l.Pools.Withdraw.request_pool_withdrawal stendar_l.Pools.Withdraw.may_process
    stendar_l.Pools.Withdraw.require_liquidity stendar_l.Pools.Withdraw.process_pool_withdrawal
    stendar_l.Pools.Withdraw.may_return stendar_l.Pools.Withdraw.returnable_amount
    stendar_l.Pools.Withdraw.operator_return_deposit stendar_l.Pools.Fees.frontend_share_of
    stendar_l.Pools.Fees.frontend_account stendar_l.Pools.Fees.transfer_shares
    stendar_l.Pools.Fees.transfer_whole stendar_l.Pools.Fees.transfer_fee
    stendar_l.Pools.Fees.collect_fee stendar_l.Pools.Deposit.initialize
    stendar_l.Pools.Deposit.may_deposit stendar_l.Pools.Deposit.open_deposit
    stendar_l.Pools.Deposit.require_deposit_accounts stendar_l.Pools.Deposit.require_capacity
    stendar_l.Pools.Deposit.set_frontend stendar_l.Pools.Deposit.record_deposit
    stendar_l.Pools.Deposit.pay_in stendar_l.Pools.Deposit.deposit_to_pool
    stendar_l.Pools.Claim.require_yield_accounts stendar_l.Pools.Claim.may_claim
    stendar_l.Pools.Claim.bot_may_claim stendar_l.Pools.Claim.split_yield
    stendar_l.Pools.Claim.record_claim stendar_l.Pools.Claim.collect_yield_fee
    stendar_l.Pools.Claim.pay_net_yield stendar_l.Pools.Claim.pay_yield
    stendar_l.Pools.Claim.claim_pool_yield stendar_l.Pools.Claim.bot_claim_pool_yield
    stendar_l.Pools.Claim.set_yield_preference stendar_l.Pools.Claim.may_compound
    stendar_l.Pools.Claim.record_compounding stendar_l.Pools.Claim.compound_yield
    stendar_l.Pools.Claim.compound_pool_yield stendar_l.State.Pools.available_liquidity
    stendar_l.State.Pools.add_pending_yield stendar_l.State.Pools.consume_pending_yield
    stendar_l.State.Pools.increment_pending_withdrawal_requests
    stendar_l.State.Pools.decrement_pending_withdrawal_requests
    stendar_l.State.Pools.initialize_rate_history stendar_l.State.Pools.rate_history_entry_count
    stendar_l.State.Pools.push_rate_history stendar_l.State.Pools.rate_history_entry_at
    stendar_l.Utils.Interest.annualized stendar_l.Utils.Scale.safe_u128_to_u64
    stendar_l.Utils.Scale.mul_div stendar_l.Utils.Scale.mul_div_u64
    stendar_l.Utils.Scale.require_current_version stendar_l.Utils.Fees.calculate_fee_tenths_bps
    stendar_l.Utils.Fees.calculate_frontend_share stendar_l.Base.Int.◌-ℤ◌ stendar_l.Base.Int.◌+ℤ◌
deposits_1m = refl

opens_same : open_deposit call example_deposit ≡ ok example_deposit
unfolding stendar_l.Pools.calculate_accrued_yield stendar_l.Pools.current_rate_start
    stendar_l.Pools.resolve_from stendar_l.Pools.oldest_rate
    stendar_l.Pools.resolve_rate_at_timestamp stendar_l.Pools.end_segment
    stendar_l.Pools.accrue_segments stendar_l.Pools.begin_current stendar_l.Pools.yield_since
    stendar_l.Pools.credit_yield stendar_l.Pools.accrue_deposit_yield
    stendar_l.Pools.Call.require_pool_active stendar_l.Pools.Call.refresh_pool_idle_since
    stendar_l.Pools.Call.clear_withdrawal_request stendar_l.Pools.Call.queue_withdrawal_request
    stendar_l.Pools.Call.require_own_deposit stendar_l.Pools.Call.require_vault_key
    stendar_l.Pools.Call.require_pool_token stendar_l.Pools.Call.require_treasury_account
    stendar_l.Pools.Withdraw.require_withdrawal_accounts
    stendar_l.Pools.Withdraw.require_withdrawal_constraints
    stendar_l.Pools.Withdraw.record_withdrawal stendar_l.Pools.Withdraw.pay_out
    stendar_l.Pools.Withdraw.accrue stendar_l.Pools.Withdraw.may_withdraw
    stendar_l.Pools.Withdraw.queue_withdrawal stendar_l.Pools.Withdraw.queue_or_refuse
    stendar_l.Pools.Withdraw.settle_withdrawal stendar_l.Pools.Withdraw.withdraw_from_pool
    stendar_l.Pools.Withdraw.request_pool_withdrawal stendar_l.Pools.Withdraw.may_process
    stendar_l.Pools.Withdraw.require_liquidity stendar_l.Pools.Withdraw.process_pool_withdrawal
    stendar_l.Pools.Withdraw.may_return stendar_l.Pools.Withdraw.returnable_amount
    stendar_l.Pools.Withdraw.operator_return_deposit stendar_l.Pools.Fees.frontend_share_of
    stendar_l.Pools.Fees.frontend_account stendar_l.Pools.Fees.transfer_shares
    stendar_l.Pools.Fees.transfer_whole stendar_l.Pools.Fees.transfer_fee
    stendar_l.Pools.Fees.collect_fee stendar_l.Pools.Deposit.initialize
    stendar_l.Pools.Deposit.may_deposit stendar_l.Pools.Deposit.open_deposit
    stendar_l.Pools.Deposit.require_deposit_accounts stendar_l.Pools.Deposit.require_capacity
    stendar_l.Pools.Deposit.set_frontend stendar_l.Pools.Deposit.record_deposit
    stendar_l.Pools.Deposit.pay_in stendar_l.Pools.Deposit.deposit_to_pool
    stendar_l.Pools.Claim.require_yield_accounts stendar_l.Pools.Claim.may_claim
    stendar_l.Pools.Claim.bot_may_claim stendar_l.Pools.Claim.split_yield
    stendar_l.Pools.Claim.record_claim stendar_l.Pools.Claim.collect_yield_fee
    stendar_l.Pools.Claim.pay_net_yield stendar_l.Pools.Claim.pay_yield
    stendar_l.Pools.Claim.claim_pool_yield stendar_l.Pools.Claim.bot_claim_pool_yield
    stendar_l.Pools.Claim.set_yield_preference stendar_l.Pools.Claim.may_compound
    stendar_l.Pools.Claim.record_compounding stendar_l.Pools.Claim.compound_yield
    stendar_l.Pools.Claim.compound_pool_yield stendar_l.State.Pools.available_liquidity
    stendar_l.State.Pools.add_pending_yield stendar_l.State.Pools.consume_pending_yield
    stendar_l.State.Pools.increment_pending_withdrawal_requests
    stendar_l.State.Pools.decrement_pending_withdrawal_requests
    stendar_l.State.Pools.initialize_rate_history stendar_l.State.Pools.rate_history_entry_count
    stendar_l.State.Pools.push_rate_history stendar_l.State.Pools.rate_history_entry_at
    stendar_l.Utils.Interest.annualized stendar_l.Utils.Scale.safe_u128_to_u64
    stendar_l.Utils.Scale.mul_div stendar_l.Utils.Scale.mul_div_u64
    stendar_l.Utils.Scale.require_current_version stendar_l.Utils.Fees.calculate_fee_tenths_bps
    stendar_l.Utils.Fees.calculate_frontend_share stendar_l.Base.Int.◌-ℤ◌ stendar_l.Base.Int.◌+ℤ◌
opens_same = refl

abbrev taken_out : Holding
taken_out = result_or deposited (withdraw_from_pool simple_runtime call deposited 999_000)

takes_out : withdraw_from_pool simple_runtime call deposited 999_000 ≡ ok taken_out
unfolding stendar_l.Pools.calculate_accrued_yield stendar_l.Pools.current_rate_start
    stendar_l.Pools.resolve_from stendar_l.Pools.oldest_rate
    stendar_l.Pools.resolve_rate_at_timestamp stendar_l.Pools.end_segment
    stendar_l.Pools.accrue_segments stendar_l.Pools.begin_current stendar_l.Pools.yield_since
    stendar_l.Pools.credit_yield stendar_l.Pools.accrue_deposit_yield
    stendar_l.Pools.Call.require_pool_active stendar_l.Pools.Call.refresh_pool_idle_since
    stendar_l.Pools.Call.clear_withdrawal_request stendar_l.Pools.Call.queue_withdrawal_request
    stendar_l.Pools.Call.require_own_deposit stendar_l.Pools.Call.require_vault_key
    stendar_l.Pools.Call.require_pool_token stendar_l.Pools.Call.require_treasury_account
    stendar_l.Pools.Withdraw.require_withdrawal_accounts
    stendar_l.Pools.Withdraw.require_withdrawal_constraints
    stendar_l.Pools.Withdraw.record_withdrawal stendar_l.Pools.Withdraw.pay_out
    stendar_l.Pools.Withdraw.accrue stendar_l.Pools.Withdraw.may_withdraw
    stendar_l.Pools.Withdraw.queue_withdrawal stendar_l.Pools.Withdraw.queue_or_refuse
    stendar_l.Pools.Withdraw.settle_withdrawal stendar_l.Pools.Withdraw.withdraw_from_pool
    stendar_l.Pools.Withdraw.request_pool_withdrawal stendar_l.Pools.Withdraw.may_process
    stendar_l.Pools.Withdraw.require_liquidity stendar_l.Pools.Withdraw.process_pool_withdrawal
    stendar_l.Pools.Withdraw.may_return stendar_l.Pools.Withdraw.returnable_amount
    stendar_l.Pools.Withdraw.operator_return_deposit stendar_l.Pools.Fees.frontend_share_of
    stendar_l.Pools.Fees.frontend_account stendar_l.Pools.Fees.transfer_shares
    stendar_l.Pools.Fees.transfer_whole stendar_l.Pools.Fees.transfer_fee
    stendar_l.Pools.Fees.collect_fee stendar_l.Pools.Deposit.initialize
    stendar_l.Pools.Deposit.may_deposit stendar_l.Pools.Deposit.open_deposit
    stendar_l.Pools.Deposit.require_deposit_accounts stendar_l.Pools.Deposit.require_capacity
    stendar_l.Pools.Deposit.set_frontend stendar_l.Pools.Deposit.record_deposit
    stendar_l.Pools.Deposit.pay_in stendar_l.Pools.Deposit.deposit_to_pool
    stendar_l.Pools.Claim.require_yield_accounts stendar_l.Pools.Claim.may_claim
    stendar_l.Pools.Claim.bot_may_claim stendar_l.Pools.Claim.split_yield
    stendar_l.Pools.Claim.record_claim stendar_l.Pools.Claim.collect_yield_fee
    stendar_l.Pools.Claim.pay_net_yield stendar_l.Pools.Claim.pay_yield
    stendar_l.Pools.Claim.claim_pool_yield stendar_l.Pools.Claim.bot_claim_pool_yield
    stendar_l.Pools.Claim.set_yield_preference stendar_l.Pools.Claim.may_compound
    stendar_l.Pools.Claim.record_compounding stendar_l.Pools.Claim.compound_yield
    stendar_l.Pools.Claim.compound_pool_yield stendar_l.State.Pools.available_liquidity
    stendar_l.State.Pools.add_pending_yield stendar_l.State.Pools.consume_pending_yield
    stendar_l.State.Pools.increment_pending_withdrawal_requests
    stendar_l.State.Pools.decrement_pending_withdrawal_requests
    stendar_l.State.Pools.initialize_rate_history stendar_l.State.Pools.rate_history_entry_count
    stendar_l.State.Pools.push_rate_history stendar_l.State.Pools.rate_history_entry_at
    stendar_l.Utils.Interest.annualized stendar_l.Utils.Scale.safe_u128_to_u64
    stendar_l.Utils.Scale.mul_div stendar_l.Utils.Scale.mul_div_u64
    stendar_l.Utils.Scale.require_current_version stendar_l.Utils.Fees.calculate_fee_tenths_bps
    stendar_l.Utils.Fees.calculate_frontend_share stendar_l.Base.Int.◌-ℤ◌ stendar_l.Base.Int.◌+ℤ◌
takes_out = refl

added : deposited.deposit.deposit_amount ≡ 10_999_000
unfolding stendar_l.Pools.calculate_accrued_yield stendar_l.Pools.current_rate_start
    stendar_l.Pools.resolve_from stendar_l.Pools.oldest_rate
    stendar_l.Pools.resolve_rate_at_timestamp stendar_l.Pools.end_segment
    stendar_l.Pools.accrue_segments stendar_l.Pools.begin_current stendar_l.Pools.yield_since
    stendar_l.Pools.credit_yield stendar_l.Pools.accrue_deposit_yield
    stendar_l.Pools.Call.require_pool_active stendar_l.Pools.Call.refresh_pool_idle_since
    stendar_l.Pools.Call.clear_withdrawal_request stendar_l.Pools.Call.queue_withdrawal_request
    stendar_l.Pools.Call.require_own_deposit stendar_l.Pools.Call.require_vault_key
    stendar_l.Pools.Call.require_pool_token stendar_l.Pools.Call.require_treasury_account
    stendar_l.Pools.Withdraw.require_withdrawal_accounts
    stendar_l.Pools.Withdraw.require_withdrawal_constraints
    stendar_l.Pools.Withdraw.record_withdrawal stendar_l.Pools.Withdraw.pay_out
    stendar_l.Pools.Withdraw.accrue stendar_l.Pools.Withdraw.may_withdraw
    stendar_l.Pools.Withdraw.queue_withdrawal stendar_l.Pools.Withdraw.queue_or_refuse
    stendar_l.Pools.Withdraw.settle_withdrawal stendar_l.Pools.Withdraw.withdraw_from_pool
    stendar_l.Pools.Withdraw.request_pool_withdrawal stendar_l.Pools.Withdraw.may_process
    stendar_l.Pools.Withdraw.require_liquidity stendar_l.Pools.Withdraw.process_pool_withdrawal
    stendar_l.Pools.Withdraw.may_return stendar_l.Pools.Withdraw.returnable_amount
    stendar_l.Pools.Withdraw.operator_return_deposit stendar_l.Pools.Fees.frontend_share_of
    stendar_l.Pools.Fees.frontend_account stendar_l.Pools.Fees.transfer_shares
    stendar_l.Pools.Fees.transfer_whole stendar_l.Pools.Fees.transfer_fee
    stendar_l.Pools.Fees.collect_fee stendar_l.Pools.Deposit.initialize
    stendar_l.Pools.Deposit.may_deposit stendar_l.Pools.Deposit.open_deposit
    stendar_l.Pools.Deposit.require_deposit_accounts stendar_l.Pools.Deposit.require_capacity
    stendar_l.Pools.Deposit.set_frontend stendar_l.Pools.Deposit.record_deposit
    stendar_l.Pools.Deposit.pay_in stendar_l.Pools.Deposit.deposit_to_pool
    stendar_l.Pools.Claim.require_yield_accounts stendar_l.Pools.Claim.may_claim
    stendar_l.Pools.Claim.bot_may_claim stendar_l.Pools.Claim.split_yield
    stendar_l.Pools.Claim.record_claim stendar_l.Pools.Claim.collect_yield_fee
    stendar_l.Pools.Claim.pay_net_yield stendar_l.Pools.Claim.pay_yield
    stendar_l.Pools.Claim.claim_pool_yield stendar_l.Pools.Claim.bot_claim_pool_yield
    stendar_l.Pools.Claim.set_yield_preference stendar_l.Pools.Claim.may_compound
    stendar_l.Pools.Claim.record_compounding stendar_l.Pools.Claim.compound_yield
    stendar_l.Pools.Claim.compound_pool_yield stendar_l.State.Pools.available_liquidity
    stendar_l.State.Pools.add_pending_yield stendar_l.State.Pools.consume_pending_yield
    stendar_l.State.Pools.increment_pending_withdrawal_requests
    stendar_l.State.Pools.decrement_pending_withdrawal_requests
    stendar_l.State.Pools.initialize_rate_history stendar_l.State.Pools.rate_history_entry_count
    stendar_l.State.Pools.push_rate_history stendar_l.State.Pools.rate_history_entry_at
    stendar_l.Utils.Interest.annualized stendar_l.Utils.Scale.safe_u128_to_u64
    stendar_l.Utils.Scale.mul_div stendar_l.Utils.Scale.mul_div_u64
    stendar_l.Utils.Scale.require_current_version stendar_l.Utils.Fees.calculate_fee_tenths_bps
    stendar_l.Utils.Fees.calculate_frontend_share stendar_l.Base.Int.◌-ℤ◌ stendar_l.Base.Int.◌+ℤ◌
added = refl

deposit_then_withdraw_example :
    (taken_out.deposit.deposit_amount ≡ 10_000_000)
    × (taken_out.pool.current_total_deposits ≡ 10_000_000)
    × (simple_transfer deposited.tokens 80 41 90 999_000 ≡ ok taken_out.tokens)
deposit_then_withdraw_example =
    deposit_then_withdraw simple_runtime call call holding deposited 1_000_000 taken_out deposits_1m
      (omega arith) (omega arith) example_deposit 999_000 opens_same added takes_out

-- A claim of what a day has earned.
abbrev claimed : Holding
claimed = result_or holding (claim_pool_yield simple_runtime call holding)
