-- ===== src/Pools/Books/Accrual.antt =====
-- Accrual and the requests of withdrawal keep the books (`accrue_deposit_yield`,
-- `clear_withdrawal_request`, `queue_withdrawal_request`).
use stendar_l.Base.{ℕ, ◌≤◌, ◌≡◌, inl, inr, arith}
use stendar_l.Base.Int.{ℤ}
use stendar_l.Error.{ok, >>=-eq-ok}
use stendar_l.State.Pools.{PoolState, PoolDeposit}
use stendar_l.Pools.{yield_since, credit_yield, accrue_deposit_yield}
use stendar_l.Pools.Yield.{accrue_cases}
use stendar_l.Pools.Call.{Holding, PoolCall}
use stendar_l.Pools.Withdraw.{accrue}
use stendar_l.Pools.Books.{IsPosted}

-- What accrual leaves alone.
pub record AccruesOnly (p : PoolState) (d : PoolDeposit) (p' : PoolState) (d' : PoolDeposit)
    : Type 0 where
  pub posted : IsPosted p d p' d'
  pub principal : d'.deposit_amount ≡ d.deposit_amount
  pub depositors : p'.num_depositors ≡ p.num_depositors
  pub total : p'.current_total_deposits ≡ p.current_total_deposits
  pub requested : d'.withdrawal_requested ≡ d.withdrawal_requested
  pub queue : p'.withdrawal_queue_enabled ≡ p.withdrawal_queue_enabled
  pub requests : p'.pending_withdrawal_requests ≡ p.pending_withdrawal_requests
  pub capacity : p'.capacity ≡ p.capacity
  pub loan_mint : p'.loan_mint ≡ p.loan_mint
  pub frontend : d'.frontend ≡ d.frontend
  pub claimed : d'.total_yield_claimed ≡ d.total_yield_claimed

credit_yield-AccruesOnly :
    (p : PoolState) (d : PoolDeposit) (newly : ℕ) (now : ℤ) (credited : ℕ) (p' : PoolState)
    (d' : PoolDeposit)
    → credit_yield p d newly now ≡ ok (credited, p', d')
    → p.current_utilized ≤ p.current_total_deposits
    → AccruesOnly p d p' d'
unfolding credit_yield
credit_yield-AccruesOnly p d newly now credited p' d' h s = ground arith

same-AccruesOnly :
    (p : PoolState) (d : PoolDeposit) (credited : ℕ) (p' : PoolState) (d' : PoolDeposit)
    → (credited ≡ 0) × (p' ≡ p) × (d' ≡ d)
    → p.current_utilized ≤ p.current_total_deposits
    → AccruesOnly p d p' d'
same-AccruesOnly p d credited p' d' h s = ground arith

accrue_deposit_yield-AccruesOnly :
    (p : PoolState) (d : PoolDeposit) (now : ℤ) (credited : ℕ) (p' : PoolState) (d' : PoolDeposit)
    → accrue_deposit_yield p d now ≡ ok (credited, p', d')
    → p.current_utilized ≤ p.current_total_deposits
    → AccruesOnly p d p' d'
accrue_deposit_yield-AccruesOnly p d now credited p' d' h s =
    elim (accrue_cases p d now credited p' d' h) [
      | inl (before, none_credited, pool, deposit) ↦
          same-AccruesOnly p d credited p' d' (none_credited, pool, deposit) s
      | inr run ↦
          let (newly, e, done) = >>=-eq-ok (yield_since p d now) _ run in
          credit_yield-AccruesOnly p d newly now credited p' d' done s
    ]

pub accrue-eq :
    (c : PoolCall) (h h' : Holding)
    → accrue c h ≡ ok h'
    → (credited : ℕ) × (accrue_deposit_yield h.pool h.deposit c.now
        ≡ ok (credited, h'.pool, h'.deposit))
      × (h'.treasury ≡ h.treasury)
      × (h'.tokens ≡ h.tokens)
unfolding accrue
accrue-eq c h h' e =
    let (a, run, done) = >>=-eq-ok (accrue_deposit_yield h.pool h.deposit c.now) _ e in
    (a.0, cc, cc, cc)

pub accrue-AccruesOnly :
    (c : PoolCall) (h h' : Holding)
    → accrue c h ≡ ok h'
    → h.pool.current_utilized ≤ h.pool.current_total_deposits
    → AccruesOnly h.pool h.deposit h'.pool h'.deposit
      × (h'.tokens ≡ h.tokens)
      × (h'.treasury ≡ h.treasury)
accrue-AccruesOnly c h h' e s =
    let (credited, run, treasury, tokens) = accrue-eq c h h' e in
    (
      accrue_deposit_yield-AccruesOnly h.pool h.deposit c.now credited h'.pool h'.deposit run s,
      tokens,
      treasury,
    )
