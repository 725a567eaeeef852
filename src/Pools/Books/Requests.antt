-- ===== src/Pools/Books/Requests.antt =====
-- The requests of withdrawal, and the helpers of programs/stendar/src/instructions/pools.rs that
-- touch neither principal nor yield.
use stendar_l.Base.{ℕ, ◌+◌, ◌≤◌, ◌≡◌, true, false, arith}
use stendar_l.Base.Int.{ℤ}
use stendar_l.Error.{ok}
use stendar_l.State.Pools.{PoolState, PoolDeposit}
use stendar_l.Pools.Call.{
  clear_withdrawal_request, queue_withdrawal_request, refresh_pool_idle_since,
}
use stendar_l.Pools.Books.{bit}

-- Two states of a pool with the same totals, the count of requests left out.
pub record SameTotals (p p' : PoolState) : Type 0 where
  pub deposits : p'.current_total_deposits ≡ p.current_total_deposits
  pub utilized : p'.current_utilized ≡ p.current_utilized
  pub yield : p'.total_pending_yield ≡ p.total_pending_yield
  pub depositors : p'.num_depositors ≡ p.num_depositors

-- Two states of a deposit with the same principal and yield.
pub record SameHolding (d d' : PoolDeposit) : Type 0 where
  pub principal : d'.deposit_amount ≡ d.deposit_amount
  pub yield : d'.accrued_yield ≡ d.accrued_yield

pub refresh_pool_idle_since-SameTotals :
    (p : PoolState) (now : ℤ)
    → SameTotals p (refresh_pool_idle_since p now)
      × ((refresh_pool_idle_since p now).pending_withdrawal_requests
          ≡ p.pending_withdrawal_requests)
unfolding refresh_pool_idle_since
refresh_pool_idle_since-SameTotals p now = ground arith

-- A request that is cleared was counted, and is no more.
pub record IsCleared (p : PoolState) (d : PoolDeposit) (p' : PoolState) (d' : PoolDeposit)
    : Type 0 where
  pub totals : SameTotals p p'
  pub holding : SameHolding d d'
  pub requests :
      p'.pending_withdrawal_requests + bit d.withdrawal_requested ≡ p.pending_withdrawal_requests
  pub cleared : d'.withdrawal_requested ≡ false
  pub requested_amount : d'.withdrawal_requested_amount ≡ 0

pub clear_withdrawal_request-IsCleared :
    (p : PoolState) (d : PoolDeposit) (p' : PoolState) (d' : PoolDeposit)
    → clear_withdrawal_request p d ≡ ok (p', d')
    → bit d.withdrawal_requested ≤ p.pending_withdrawal_requests
    → IsCleared p d p' d'
unfolding clear_withdrawal_request
clear_withdrawal_request-IsCleared p d p' d' h q = ground arith

-- A request that is queued was not one before, and is counted.
pub record IsQueued (p : PoolState) (d : PoolDeposit) (amount : ℕ) (now : ℤ) (p' : PoolState)
    (d' : PoolDeposit) : Type 0 where
  pub totals : SameTotals p p'
  pub holding : SameHolding d d'
  pub requests : p'.pending_withdrawal_requests ≡ p.pending_withdrawal_requests + 1
  pub not_before : d.withdrawal_requested ≡ false
  pub requested : d'.withdrawal_requested ≡ true
  pub requested_amount : d'.withdrawal_requested_amount ≡ amount
  pub requested_at : d'.withdrawal_requested_at ≡ now

pub queue_withdrawal_request-IsQueued :
    (p : PoolState) (d : PoolDeposit) (amount : ℕ) (now : ℤ) (p' : PoolState) (d' : PoolDeposit)
    → queue_withdrawal_request p d amount now ≡ ok (p', d')
    → IsQueued p d amount now p' d'
unfolding queue_withdrawal_request
queue_withdrawal_request-IsQueued p d amount now p' d' h = ground arith
