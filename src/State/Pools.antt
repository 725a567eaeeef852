-- ===== src/State/Pools.antt =====
-- `PoolState` and `PoolDeposit` of programs/stendar/src/state/pools.rs with the methods of the pool.
-- The array of the rate history is a function of the slot; the reserved bytes, the bump and the
-- name are left out.
pub mod History
use stendar_l.Base.{ℕ, ◌+◌, ◌%◌, Bool, Option, none, some, min, ltb, ◌==◌, if◌then◌else◌}
use stendar_l.Base.Int.{ℤ, pos}
use stendar_l.Base.Word.{u32_max, u64_max, checked_add, checked_sub}
use stendar_l.Error.{StendarError, Result, ok, ◌>>=◌, ok_or}
use stendar_l.State.Enums.{PoolStatus}
use stendar_l.State.Contract.{Pubkey}

abbrev pub rate_history_size : ℕ
rate_history_size = 7

pub record RateHistoryEntry : Type 0 where
  pub changed_at : ℤ
  pub rate_bps : ℕ

pub record PoolState : Type 0 where
  pub operator : Pubkey
  pub pool_seed : ℕ
  pub rate_bps : ℕ
  pub capacity : ℕ
  pub current_total_deposits : ℕ
  pub current_utilized : ℕ
  pub total_yield_distributed : ℕ
  pub status : PoolStatus
  pub created_at : ℤ
  pub authorized : Bool
  pub withdrawal_queue_enabled : Bool
  pub minimum_deposit : ℕ
  pub num_depositors : ℕ
  pub loan_mint : Pubkey
  pub vault_token_account : Pubkey
  pub allowed_loan_type : ℕ
  pub min_ltv_bps : ℕ
  pub max_term_days : ℕ
  pub rate_updated_at : ℤ
  pub prev_rate_bps : ℕ
  pub idle_since : ℤ
  pub total_pending_yield : ℕ
  pub pending_withdrawal_requests : ℕ
  pub rate_history_len : ℕ
  pub rate_history_head : ℕ
  pub rate_history : ℕ → RateHistoryEntry
  pub account_version : ℕ

pub record PoolDeposit : Type 0 where
  pub depositor : Pubkey
  pub pool : Pubkey
  pub deposit_amount : ℕ
  pub accrued_yield : ℕ
  pub last_yield_update : ℤ
  pub deposit_timestamp : ℤ
  pub withdrawal_requested : Bool
  pub withdrawal_requested_at : ℤ
  pub withdrawal_requested_amount : ℕ
  pub total_yield_claimed : ℕ
  pub frontend : Pubkey
  pub yield_preference : ℕ
  pub total_yield_compounded : ℕ
  pub deferred_yield : ℕ
  pub account_version : ℕ

-- `PoolState::available_liquidity`
unfoldable pub available_liquidity : PoolState → Result ℕ
available_liquidity p =
    ok_or (checked_sub p.current_total_deposits p.current_utilized) StendarError.arithmetic_overflow

-- `PoolState::add_pending_yield`
unfoldable pub add_pending_yield : PoolState → ℕ → Result PoolState
add_pending_yield p amount = do
  updated ←
      ok_or (checked_add u64_max p.total_pending_yield amount) StendarError.arithmetic_overflow
  ok (record p { total_pending_yield = updated })

-- `PoolState::consume_pending_yield`
unfoldable pub consume_pending_yield : PoolState → ℕ → Result PoolState
consume_pending_yield p amount = do
  updated ← ok_or (checked_sub p.total_pending_yield amount) StendarError.arithmetic_overflow
  ok (record p { total_pending_yield = updated })

-- `PoolState::increment_pending_withdrawal_requests`
unfoldable pub increment_pending_withdrawal_requests : PoolState → Result PoolState
increment_pending_withdrawal_requests p = do
  updated ←
      ok_or (checked_add u32_max p.pending_withdrawal_requests 1) StendarError.arithmetic_overflow
  ok (record p { pending_withdrawal_requests = updated })

-- `PoolState::decrement_pending_withdrawal_requests`
unfoldable pub decrement_pending_withdrawal_requests : PoolState → Result PoolState
decrement_pending_withdrawal_requests p = do
  updated ← ok_or (checked_sub p.pending_withdrawal_requests 1) StendarError.arithmetic_overflow
  ok (record p { pending_withdrawal_requests = updated })

-- `PoolState::initialize_rate_history`
unfoldable pub initialize_rate_history : PoolState → PoolState
initialize_rate_history p = record p {
  rate_history_len = 0;
  rate_history_head = 0;
  rate_history = λ slot. record { changed_at = pos 0; rate_bps = 0 };
}

-- `PoolState::rate_history_entry_count`
unfoldable pub rate_history_entry_count : PoolState → ℕ
rate_history_entry_count p = min p.rate_history_len rate_history_size

-- `PoolState::push_rate_history`
unfoldable pub push_rate_history : PoolState → RateHistoryEntry → PoolState
push_rate_history p entry =
    let head = p.rate_history_head % rate_history_size in
    let len = min p.rate_history_len rate_history_size in
    record p {
      rate_history = λ slot. if slot == head then entry else p.rate_history slot;
      rate_history_head = (head + 1) % rate_history_size;
      rate_history_len = if ltb len rate_history_size then len + 1 else p.rate_history_len;
    }

-- `PoolState::rate_history_entry_at`
unfoldable pub rate_history_entry_at : PoolState → ℕ → Option RateHistoryEntry
unfolding rate_history_entry_count
rate_history_entry_at p chronological_index =
    let len = rate_history_entry_count p in
    let head = p.rate_history_head % rate_history_size in
    let oldest_slot = if len == rate_history_size then head else 0 in
    if ltb chronological_index len
    then some (p.rate_history ((oldest_slot + chronological_index) % rate_history_size))
    else none
