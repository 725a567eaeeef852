-- ===== src/Pools/Withdraw/Others.antt =====
-- What `request_pool_withdrawal`, `process_pool_withdrawal` and `operator_return_deposit` do.
use stendar_l.Base.{ℕ, ap, ◌+◌, ◌-◌, ltb, ◌≤◌, ◌<◌, ◌≡◌, arith, true, min, ◌||◌, ◌==◌}
use stendar_l.Error.{StendarError, require, ok, >>=-eq-ok}
use stendar_l.State.Enums.{PoolStatus}
use stendar_l.State.Pools.{available_liquidity}
use stendar_l.Ledger.{Runtime}
use stendar_l.Pools.Call.{Holding, PoolCall}
use stendar_l.Pools.Withdraw.{
  accrue, require_liquidity, process_pool_withdrawal, may_process, returnable_amount, may_return,
  operator_return_deposit, queue_withdrawal, request_pool_withdrawal,
}
use stendar_l.Pools.Books.{bit}
use stendar_l.Pools.Books.Requests.{queue_withdrawal_request-IsQueued}
use stendar_l.Pools.Books.Accrual.{accrue-AccruesOnly}
use stendar_l.Pools.Withdraw.Effect.{IsPaidOut, IsWaiting, pay_out-IsPaidOut, queue_withdrawal-eq}

require_liquidity-le :
    (c : PoolCall) (h : Holding) (amount : ℕ)
    → require_liquidity c h amount ≡ ok tt
    → amount + h.pool.current_utilized ≤ h.pool.current_total_deposits
unfolding require_liquidity available_liquidity
require_liquidity-le c h amount e = ground arith

-- What the tests of a processing establish.
pub record IsProcessable (c : PoolCall) (h : Holding) : Type 0 where
  pub by_whom : (h.pool.operator == c.signer || h.treasury.bot_authority == c.signer) ≡ true
  pub queued : h.deposit.withdrawal_requested ≡ true
  pub positive : 0 < h.deposit.withdrawal_requested_amount
  pub within : h.deposit.withdrawal_requested_amount ≤ h.deposit.deposit_amount

may_process-IsProcessable :
    (c : PoolCall) (h : Holding) → may_process c h ≡ ok tt → IsProcessable c h
unfolding may_process
may_process-IsProcessable c h e = ground arith

-- A queued withdrawal that is processed, by the pool's operator or the bot, pays exactly the queued
-- amount to the depositor and keeps the books, if the pool's counter covers the request and its
-- deposits cover what is utilized.
pub process_pool_withdrawal-IsPaidOut :
    (r : Runtime) (c : PoolCall) (h h' : Holding)
    → process_pool_withdrawal r c h ≡ ok h'
    → bit h.deposit.withdrawal_requested ≤ h.pool.pending_withdrawal_requests
    → h.pool.current_utilized ≤ h.pool.current_total_deposits
    → IsProcessable c h × IsPaidOut r c h h.deposit.withdrawal_requested_amount h'
unfolding process_pool_withdrawal
process_pool_withdrawal-IsPaidOut r c h h' e q s =
    let amount = h.deposit.withdrawal_requested_amount in
    let (_, admitted, rest) = >>=-eq-ok (may_process c h) _ e in
    let (a, accrued, rest') = >>=-eq-ok (accrue c h) _ rest in
    let (_, free, paid) = >>=-eq-ok (require_liquidity c a amount) _ rest' in
    (
      may_process-IsProcessable c h admitted,
      pay_out-IsPaidOut r c h a amount h' accrued paid q s (require_liquidity-le c a amount free),
    )

-- What the tests of a return establish.
pub record IsReturnable (c : PoolCall) (h : Holding) : Type 0 where
  pub by_operator : h.pool.operator ≡ c.signer
  pub paused : h.pool.status ≡ PoolStatus.paused
  pub positive : 0 < h.deposit.deposit_amount

may_return-IsReturnable : (c : PoolCall) (h : Holding) → may_return c h ≡ ok tt → IsReturnable c h
unfolding may_return
may_return-IsReturnable c h e = ground arith

returnable_amount-eq :
    (c : PoolCall) (h : Holding) (amount : ℕ)
    → returnable_amount c h ≡ ok amount
    → (amount + h.pool.current_utilized ≤ h.pool.current_total_deposits)
      × (amount
          ≡ min
              (min h.deposit.deposit_amount
                (h.pool.current_total_deposits - h.pool.current_utilized))
              (h.tokens c.pool_vault).amount)
unfolding returnable_amount available_liquidity
returnable_amount-eq c h amount e = ground arith

same_least :
    {n d d' t t' u u' v v' : ℕ}
    → d' ≡ d
    → t' ≡ t
    → u' ≡ u
    → v' ≡ v
    → n ≡ min (min d' (t' - u')) v'
    → n ≡ min (min d (t - u)) v
same_least d t u v e = cc

-- An operator's return needs a paused pool and gives back as much of a deposit as is free and in the
-- vault, which is something, and to the depositor. It keeps the books, if the pool's counter covers
-- the deposit's request and its deposits cover what is utilized.
pub operator_return_deposit-IsPaidOut :
    (r : Runtime) (c : PoolCall) (h h' : Holding)
    → operator_return_deposit r c h ≡ ok h'
    → bit h.deposit.withdrawal_requested ≤ h.pool.pending_withdrawal_requests
    → h.pool.current_utilized ≤ h.pool.current_total_deposits
    → (amount : ℕ) × (0 < amount)
      × (amount
          ≡ min
              (min h.deposit.deposit_amount
                (h.pool.current_total_deposits - h.pool.current_utilized))
              (h.tokens c.pool_vault).amount)
      × IsReturnable c h
      × IsPaidOut r c h amount h'
unfolding operator_return_deposit
operator_return_deposit-IsPaidOut r c h h' e q s =
    let (_, admitted, rest) = >>=-eq-ok (may_return c h) _ e in
    let (a, accrued, rest') = >>=-eq-ok (accrue c h) _ rest in
    let (amount, least, rest'') = >>=-eq-ok (returnable_amount c a) _ rest' in
    let (_, positive, paid) =
      >>=-eq-ok (require (ltb 0 amount) StendarError.insufficient_pool_liquidity) _ rest'' in
    let (only, tokens, treasury) = accrue-AccruesOnly c h a accrued s in
    let (free, as_much) = returnable_amount-eq c a amount least in
    (
      amount,
      ground arith,
      same_least only.principal only.total only.posted.utilized
          (ap (λ l. (l c.pool_vault).amount) tokens) as_much,
      may_return-IsReturnable c h admitted,
      pay_out-IsPaidOut r c h a amount h' accrued paid q s free,
    )

-- What the tests of a request establish.
pub record IsRequestable (h : Holding) (amount : ℕ) : Type 0 where
  pub positive : 0 < amount
  pub within : amount ≤ h.deposit.deposit_amount
  pub queue : h.pool.withdrawal_queue_enabled ≡ true

request_steps :
    (c : PoolCall) (h : Holding) (amount : ℕ) (h' : Holding)
    → request_pool_withdrawal c h amount ≡ ok h'
    → IsRequestable h amount × (queue_withdrawal c h amount ≡ ok h')
unfolding request_pool_withdrawal
request_steps c h amount h' e = ground arith

-- A request that succeeds is for part of the deposit, in a pool with a queue; it is queued and
-- counted, and pays nothing. The books are kept, if the pool's deposits cover what is utilized.
pub request_pool_withdrawal-IsWaiting :
    (c : PoolCall) (h : Holding) (amount : ℕ) (h' : Holding)
    → request_pool_withdrawal c h amount ≡ ok h'
    → h.pool.current_utilized ≤ h.pool.current_total_deposits
    → IsRequestable h amount × IsWaiting c h amount h'
request_pool_withdrawal-IsWaiting c h amount h' e s =
    let (admitted, queued) = request_steps c h amount h' e in
    let (k, same) = queue_withdrawal-eq c h amount h' queued in
    let q = queue_withdrawal_request-IsQueued h.pool h.deposit amount c.now h'.pool h'.deposit k in
    (admitted, ground arith)
