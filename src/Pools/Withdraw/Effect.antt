-- ===== src/Pools/Withdraw/Effect.antt =====
-- What the withdrawals of programs/stendar/src/instructions/pools.rs do, branch by branch.
use stendar_l.Base.{ℕ, ◌+◌, ◌≤◌, ◌<◌, ◌≡◌, ◌⊎◌, inl, inr, arith, true}
use stendar_l.Error.{ok, >>=-eq-ok}
use stendar_l.Ledger.{Runtime}
use stendar_l.Pools.Call.{Holding, PoolCall, queue_withdrawal_request}
use stendar_l.Pools.Withdraw.{
  accrue, pay_out, record_withdrawal, queue_or_refuse, queue_withdrawal, settle_withdrawal,
  may_withdraw, withdraw_from_pool,
}
use stendar_l.Pools.Books.{IsPosted, IsPosted-trans, Counts, bit}
use stendar_l.Pools.Books.Requests.{queue_withdrawal_request-IsQueued}
use stendar_l.Pools.Books.Accrual.{accrue-AccruesOnly}
use stendar_l.Pools.Books.Withdrawals.{record_withdrawal-IsWithdrawn}

-- A payment of principal: the books, and the transfer from the vault.
pub record IsPaidOut (r : Runtime) (c : PoolCall) (h : Holding) (amount : ℕ) (h' : Holding)
    : Type 0 where
  pub posted : IsPosted h.pool h.deposit h'.pool h'.deposit
  pub counts : Counts h.pool h.deposit h'.pool h'.deposit
  pub principal : h'.deposit.deposit_amount + amount ≡ h.deposit.deposit_amount
  pub total : h'.pool.current_total_deposits + amount ≡ h.pool.current_total_deposits
  pub paid : r.transfer h.tokens c.pool_vault c.depositor_usdc_ata c.pool_key amount ≡ ok h'.tokens

-- A request that waits: the books, and no transfer.
pub record IsWaiting (c : PoolCall) (h : Holding) (amount : ℕ) (h' : Holding) : Type 0 where
  pub posted : IsPosted h.pool h.deposit h'.pool h'.deposit
  pub counts : Counts h.pool h.deposit h'.pool h'.deposit
  pub principal : h'.deposit.deposit_amount ≡ h.deposit.deposit_amount
  pub total : h'.pool.current_total_deposits ≡ h.pool.current_total_deposits
  pub requested : h'.deposit.withdrawal_requested ≡ true
  pub requested_amount : h'.deposit.withdrawal_requested_amount ≡ amount
  pub unpaid : h'.tokens ≡ h.tokens

pay_out-eq :
    (r : Runtime) (c : PoolCall) (h : Holding) (amount : ℕ) (h' : Holding)
    → pay_out r c h amount ≡ ok h'
    → (r.transfer h.tokens c.pool_vault c.depositor_usdc_ata c.pool_key amount ≡ ok h'.tokens)
      × (record_withdrawal h.pool h.deposit amount c ≡ ok (h'.pool, h'.deposit))
unfolding pay_out
pay_out-eq r c h amount h' e =
    let (tokens, paid, rest) =
      >>=-eq-ok (r.transfer h.tokens c.pool_vault c.depositor_usdc_ata c.pool_key amount) _ e in
    let (recorded, done, last) = >>=-eq-ok (record_withdrawal h.pool h.deposit amount c) _ rest in
    (cc, cc)

-- The payment after the accrual, from before the accrual.
pub pay_out-IsPaidOut :
    (r : Runtime) (c : PoolCall) (h a : Holding) (amount : ℕ) (h' : Holding)
    → accrue c h ≡ ok a
    → pay_out r c a amount ≡ ok h'
    → bit h.deposit.withdrawal_requested ≤ h.pool.pending_withdrawal_requests
    → h.pool.current_utilized ≤ h.pool.current_total_deposits
    → amount + a.pool.current_utilized ≤ a.pool.current_total_deposits
    → IsPaidOut r c h amount h'
pay_out-IsPaidOut r c h a amount h' e k q s free =
    let (only, tokens, treasury) = accrue-AccruesOnly c h a e s in
    let (paid, recorded) = pay_out-eq r c a amount h' k in
    let w =
      record_withdrawal-IsWithdrawn a.pool a.deposit amount c h'.pool h'.deposit recorded
        (rw (only.requested, only.requests) q) free in
    record {
      posted = IsPosted-trans only.posted w.posted;
      counts = omega (arith, only.principal, only.depositors, rw only.principal at w.counts);
      principal = omega (arith, only.principal, w.principal);
      total = omega (arith, only.total, w.total);
      paid = rw (← tokens) paid;
    }

settle_cases :
    (r : Runtime) (c : PoolCall) (h : Holding) (amount : ℕ) (h' : Holding)
    → settle_withdrawal r c h amount ≡ ok h'
    → (amount + h.pool.current_utilized ≤ h.pool.current_total_deposits)
        × (pay_out r c h amount ≡ ok h')
      ⊎ ((h.pool.current_total_deposits < amount + h.pool.current_utilized)
          × (h.pool.withdrawal_queue_enabled ≡ true)
          × (queue_withdrawal c h amount ≡ ok h'))
unfolding settle_withdrawal queue_or_refuse
settle_cases r c h amount h' e = ground arith

pub queue_withdrawal-eq :
    (c : PoolCall) (h : Holding) (amount : ℕ) (h' : Holding)
    → queue_withdrawal c h amount ≡ ok h'
    → (queue_withdrawal_request h.pool h.deposit amount c.now ≡ ok (h'.pool, h'.deposit))
      × (h'.tokens ≡ h.tokens)
unfolding queue_withdrawal
queue_withdrawal-eq c h amount h' e =
    let (queued, done, last) =
      >>=-eq-ok (queue_withdrawal_request h.pool h.deposit amount c.now) _ e in
    (cc, cc)

queued-IsWaiting :
    (c : PoolCall) (h a : Holding) (amount : ℕ) (h' : Holding)
    → accrue c h ≡ ok a
    → queue_withdrawal c a amount ≡ ok h'
    → h.pool.current_utilized ≤ h.pool.current_total_deposits
    → IsWaiting c h amount h'
queued-IsWaiting c h a amount h' e queued s =
    let (k, same) = queue_withdrawal-eq c a amount h' queued in
    let (only, tokens, treasury) = accrue-AccruesOnly c h a e s in
    let q = queue_withdrawal_request-IsQueued a.pool a.deposit amount c.now h'.pool h'.deposit k in
    ground (arith, only.posted)

-- A withdrawal that succeeds either pays the amount out of the vault, off the deposit and off the
-- pool's total, or leaves principal and vault alone and puts the request in the queue: it pays
-- exactly if the pool has the amount free, and queues only if the pool has a queue. The books are
-- kept either way, if the pool's counter covers the deposit's request and its deposits cover what is
-- utilized.
pub withdraw_from_pool-pays_or_queues :
    (r : Runtime) (c : PoolCall) (h : Holding) (amount : ℕ) (h' : Holding)
    → withdraw_from_pool r c h amount ≡ ok h'
    → bit h.deposit.withdrawal_requested ≤ h.pool.pending_withdrawal_requests
    → h.pool.current_utilized ≤ h.pool.current_total_deposits
    → (amount + h.pool.current_utilized ≤ h.pool.current_total_deposits) × IsPaidOut r c h amount h'
      ⊎ ((h.pool.current_total_deposits < amount + h.pool.current_utilized)
          × (h.pool.withdrawal_queue_enabled ≡ true)
          × IsWaiting c h amount h')
unfolding withdraw_from_pool
withdraw_from_pool-pays_or_queues r c h amount h' e q s =
    let (_, admitted, rest) = >>=-eq-ok (may_withdraw c h amount) _ e in
    let (a, accrued, settled) = >>=-eq-ok (accrue c h) _ rest in
    let (only, tokens, treasury) = accrue-AccruesOnly c h a accrued s in
    elim (settle_cases r c a amount h' settled) [
      | inl (free, paid) ↦ inl (
        omega (arith, free, only.total, only.posted.utilized),
        pay_out-IsPaidOut r c h a amount h' accrued paid q s free,
      )
      | inr (short, queue, queued) ↦ inr (
        omega (arith, short, only.total, only.posted.utilized),
        rw (← only.queue) queue,
        queued-IsWaiting c h a amount h' accrued queued s,
      )
    ]
