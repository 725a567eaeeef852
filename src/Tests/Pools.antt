-- ===== src/Tests/Pools.antt =====
-- An instance of each result on the accrual of pools.
pub mod Runs
mod Life
use stendar_l.Base.{ℕ, ◌+◌, ◌≤◌, ◌≡◌, true, false, arith, refl, List, [], ◌∷◌}
use stendar_l.Base.Int.{ℤ, pos}
use stendar_l.Error.{ok}
use stendar_l.State.Enums.{PoolStatus}
use stendar_l.State.Pools.{
  RateHistoryEntry, PoolState, PoolDeposit, push_rate_history, initialize_rate_history,
}
use stendar_l.State.Pools.History.{
  Holds, remember, push_rate_history-Holds, initialize_rate_history-Holds,
}
use stendar_l.Pools.{accrue_deposit_yield, yield_since}
use stendar_l.Pools.Yield.{accrue_deposit_yield_once}
use stendar_l.Tests.Concrete.{result_or}

abbrev at_300 : RateHistoryEntry
at_300 = record { changed_at = pos 2_000; rate_bps = 300 }

-- A pool whose rate went from 300 to 500 basis points at second 50,000.
abbrev pub example_pool : PoolState
example_pool = record {
  operator = 3;
  pool_seed = 0;
  rate_bps = 500;
  capacity = 100_000_000;
  current_total_deposits = 10_000_000;
  current_utilized = 4_000_000;
  total_yield_distributed = 0;
  status = PoolStatus.active;
  created_at = pos 1_000;
  authorized = true;
  withdrawal_queue_enabled = false;
  minimum_deposit = 0;
  num_depositors = 1;
  loan_mint = 70;
  vault_token_account = 80;
  allowed_loan_type = 0;
  min_ltv_bps = 0;
  max_term_days = 0;
  rate_updated_at = pos 50_000;
  prev_rate_bps = 300;
  idle_since = pos 0;
  total_pending_yield = 0;
  pending_withdrawal_requests = 0;
  rate_history_len = 1;
  rate_history_head = 1;
  rate_history = λ slot. at_300;
  account_version = 1;
}

abbrev pub example_deposit : PoolDeposit
example_deposit = record {
  depositor = 4;
  pool = 90;
  deposit_amount = 10_000_000;
  accrued_yield = 0;
  last_yield_update = pos 1_000;
  deposit_timestamp = pos 1_000;
  withdrawal_requested = false;
  withdrawal_requested_at = pos 0;
  withdrawal_requested_amount = 0;
  total_yield_claimed = 0;
  frontend = 0;
  yield_preference = 0;
  total_yield_compounded = 0;
  deferred_yield = 5;
  account_version = 1;
}

push_rate_history-Holds_example :
    Holds (push_rate_history (initialize_rate_history example_pool) at_300) (remember [] at_300)
push_rate_history-Holds_example =
    push_rate_history-Holds (initialize_rate_history example_pool) [] at_300
      (initialize_rate_history-Holds example_pool)

abbrev run : ℕ × PoolState × PoolDeposit
run =
    result_or (0, example_pool, example_deposit)
      (accrue_deposit_yield example_pool example_deposit (pos 87_400))

accrues : accrue_deposit_yield example_pool example_deposit (pos 87_400) ≡ ok (run.0, run.1, run.2)
unfolding accrue_deposit_yield stendar_l.Pools.yield_since stendar_l.Pools.accrue_segments
    stendar_l.Pools.begin_current stendar_l.Pools.end_segment
    stendar_l.Pools.calculate_accrued_yield stendar_l.Pools.current_rate_start
    stendar_l.Pools.resolve_rate_at_timestamp stendar_l.Pools.resolve_from
    stendar_l.Pools.oldest_rate stendar_l.Pools.credit_yield
    stendar_l.State.Pools.rate_history_entry_count stendar_l.State.Pools.rate_history_entry_at
    stendar_l.State.Pools.available_liquidity stendar_l.State.Pools.add_pending_yield
    stendar_l.Utils.Interest.annualized stendar_l.Utils.Scale.safe_u128_to_u64
    stendar_l.Base.Int.◌-ℤ◌
accrues = refl

accrue_deposit_yield_once_example : yield_since run.1 run.2 (pos 87_400) ≡ ok 0
accrue_deposit_yield_once_example =
    accrue_deposit_yield_once example_pool example_deposit (pos 87_400) run.0 run.1 run.2 run.1
      accrues (omega arith)
