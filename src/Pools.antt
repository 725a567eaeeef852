-- ===== src/Pools.antt =====
-- The yield of a pool's depositors (programs/stendar/src/instructions/pools.rs).
pub mod Yield
pub mod Call
pub mod Withdraw
pub mod Fees
pub mod Deposit
pub mod Claim
pub mod Books
pub mod Changes
pub mod Deploy
use stendar_l.Base.{ℕ, zero, suc, ◌+◌, ◌-◌, ◌||◌, ◌&&◌, none, some, min, ltb, ◌==◌, if◌then◌else◌}
use stendar_l.Base.Int.{ℤ, pos, ◌-ℤ◌, ltb_ℤ, leb_ℤ}
use stendar_l.Base.Word.{u64_max, checked_add, checked_sub, checked_i64, saturating_sub}
use stendar_l.Error.{StendarError, Result, ok, ◌>>=◌, ok_or}
use stendar_l.State.Pools.{
  PoolState, PoolDeposit, RateHistoryEntry, rate_history_entry_count, rate_history_entry_at,
  available_liquidity, add_pending_yield,
}
use stendar_l.Utils.Interest.{annualized}

-- `calculate_accrued_yield`; its denominator, a product of two constants, is that of interest.
unfoldable pub calculate_accrued_yield : ℕ → ℕ → ℤ → Result ℕ
calculate_accrued_yield deposit_amount rate_bps seconds_elapsed =
    if leb_ℤ seconds_elapsed (pos 0) || deposit_amount == 0 || rate_bps == 0
    then ok 0
    else annualized deposit_amount rate_bps seconds_elapsed

-- `current_rate_start`
unfoldable pub current_rate_start : PoolState → ℤ
current_rate_start pool =
    if ltb_ℤ (pos 0) pool.rate_updated_at then pool.rate_updated_at else pool.created_at

-- The loop of `resolve_rate_at_timestamp`, over as many indices as are left.
unfoldable pub resolve_from : PoolState → ℤ → ℕ → ℕ → ℕ → ℕ
resolve_from pool timestamp zero idx resolved_rate = resolved_rate
resolve_from pool timestamp (suc left) idx resolved_rate = elim (rate_history_entry_at pool idx) [
  | none ↦ resolved_rate
  | some entry ↦
      let later = resolve_from pool timestamp left (idx + 1) entry.rate_bps in
      if leb_ℤ entry.changed_at timestamp then later else resolved_rate
]

-- The rate of the oldest entry, where the loop begins.
unfoldable pub oldest_rate : PoolState → ℕ
oldest_rate pool = elim (rate_history_entry_at pool 0) [
  | none ↦ pool.rate_bps
  | some entry ↦ entry.rate_bps
]

-- `resolve_rate_at_timestamp`
unfoldable pub resolve_rate_at_timestamp : PoolState → ℤ → ℕ
resolve_rate_at_timestamp pool timestamp =
    let history_count = rate_history_entry_count pool in
    if leb_ℤ (current_rate_start pool) timestamp || history_count == 0
    then pool.rate_bps
    else resolve_from pool timestamp history_count 0 (oldest_rate pool)

-- What has accrued, from when the next segment runs, and at which rate.
pub record Segment : Type 0 where
  pub newly_accrued : ℕ
  pub segment_start : ℤ
  pub active_rate_bps : ℕ

-- A segment ends, and another begins at a new rate.
unfoldable pub end_segment : ℕ → Segment → ℤ → ℕ → Result Segment
end_segment deposit_amount s until rate_bps = do
  elapsed ← ok_or (checked_i64 (until -ℤ s.segment_start)) StendarError.arithmetic_overflow
  segment_yield ← calculate_accrued_yield deposit_amount s.active_rate_bps elapsed
  total ← ok_or (checked_add u64_max s.newly_accrued segment_yield) StendarError.arithmetic_overflow
  ok (record { newly_accrued = total; segment_start = until; active_rate_bps = rate_bps })

-- The loop over the rate history: entries before the segment are passed over, and the first one that
-- is not before the present ends the loop.
unfoldable pub accrue_segments : PoolState → ℕ → ℤ → ℕ → ℕ → Segment → Result Segment
accrue_segments pool deposit_amount now zero idx s = ok s
accrue_segments pool deposit_amount now (suc left) idx s = elim (rate_history_entry_at pool idx) [
  | none ↦ ok s
  | some entry ↦
      let past = accrue_segments pool deposit_amount now left (idx + 1) s in
      if leb_ℤ entry.changed_at s.segment_start
      then past
      else if leb_ℤ now entry.changed_at
      then ok s
      else end_segment deposit_amount s entry.changed_at entry.rate_bps >>= λ s'.
          accrue_segments pool deposit_amount now left (idx + 1) s'
]

-- The segment that the current rate begins, if it begins before the present.
unfoldable pub begin_current : PoolState → ℕ → ℤ → Segment → Result Segment
begin_current pool deposit_amount now s =
    if ltb_ℤ s.segment_start (current_rate_start pool) && ltb_ℤ (current_rate_start pool) now
    then end_segment deposit_amount s (current_rate_start pool) pool.rate_bps
    else ok s

-- All that has accrued since the last update.
unfoldable pub yield_since : PoolState → PoolDeposit → ℤ → Result ℕ
unfolding resolve_rate_at_timestamp
yield_since pool d now = do
  history ← accrue_segments pool d.deposit_amount now (rate_history_entry_count pool) 0 (record {
    newly_accrued = 0;
    segment_start = d.last_yield_update;
    active_rate_bps = resolve_rate_at_timestamp pool d.last_yield_update;
  })
  current ← begin_current pool d.deposit_amount now history
  done ← end_segment d.deposit_amount current now current.active_rate_bps
  ok done.newly_accrued

-- The part after the loops: what is owed is credited as far as the liquidity backs it.
unfoldable pub credit_yield : PoolState → PoolDeposit → ℕ → ℤ → Result (ℕ × PoolState × PoolDeposit)
unfolding available_liquidity add_pending_yield
credit_yield pool d newly_accrued now = do
  total_owed ←
      ok_or (checked_add u64_max d.deferred_yield newly_accrued) StendarError.arithmetic_overflow
  liquidity ← available_liquidity pool
  let credited = min total_owed (saturating_sub liquidity pool.total_pending_yield)
  accrued ←
      if ltb 0 credited
      then ok_or (checked_add u64_max d.accrued_yield credited) StendarError.arithmetic_overflow
      else ok d.accrued_yield
  pool' ← if ltb 0 credited then add_pending_yield pool credited else ok pool
  deferred ← ok_or (checked_sub total_owed credited) StendarError.arithmetic_overflow
  ok (
    credited,
    pool',
    record d { accrued_yield = accrued; deferred_yield = deferred; last_yield_update = now },
  )

-- `accrue_deposit_yield`, with the pool and the deposit that it writes to.
unfoldable pub accrue_deposit_yield :
    PoolState → PoolDeposit → ℤ → Result (ℕ × PoolState × PoolDeposit)
accrue_deposit_yield pool d now =
    if ltb_ℤ now d.last_yield_update
    then ok (0, pool, d)
    else yield_since pool d now >>= λ newly_accrued. credit_yield pool d newly_accrued now
