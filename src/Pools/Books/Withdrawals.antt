-- ===== src/Pools/Books/Withdrawals.antt =====
-- Withdrawals keep the books.
use stendar_l.Base.{ℕ, ◌+◌, ◌-◌, ◌≤◌, ◌≡◌, inl, inr, arith, ltb}
use stendar_l.Error.{StendarError, ok, err, Result-cases}
use stendar_l.State.Pools.{PoolState, PoolDeposit}
use stendar_l.Pools.Call.{PoolCall, clear_withdrawal_request, refresh_pool_idle_since}
use stendar_l.Pools.Withdraw.{record_withdrawal}
use stendar_l.Pools.Books.{IsPosted, Counts, bit}
use stendar_l.Pools.Books.Requests.{
  refresh_pool_idle_since-SameTotals, clear_withdrawal_request-IsCleared,
}

-- What a withdrawal of an amount does.
pub record IsWithdrawn (p : PoolState) (d : PoolDeposit) (amount : ℕ) (p' : PoolState)
    (d' : PoolDeposit) : Type 0 where
  pub posted : IsPosted p d p' d'
  pub counts : Counts p d p' d'
  pub principal : d'.deposit_amount + amount ≡ d.deposit_amount
  pub total : p'.current_total_deposits + amount ≡ p.current_total_deposits
  pub cleared : d'.withdrawal_requested_amount ≡ 0

-- The pool and the deposit as the clearing of the request finds them.
abbrev drawn_pool : PoolState → ℕ → PoolCall → PoolState
drawn_pool p amount c =
    refresh_pool_idle_since
      (record p { current_total_deposits = p.current_total_deposits - amount }) c.now

abbrev drawn_deposit : PoolDeposit → ℕ → PoolDeposit
drawn_deposit d amount = record d { deposit_amount = d.deposit_amount - amount }

record WithdrawalSteps (p : PoolState) (d : PoolDeposit) (amount : ℕ) (c : PoolCall)
    (p' : PoolState) (d' : PoolDeposit) (q : PoolState) : Type 0 where
  pub within : amount ≤ d.deposit_amount
  pub free : amount ≤ p.current_total_deposits
  pub clears :
      clear_withdrawal_request (drawn_pool p amount c) (drawn_deposit d amount) ≡ ok (q, d')
  pub counts :
      p'.num_depositors + bit (ltb 0 d.deposit_amount)
      ≡ q.num_depositors + bit (ltb 0 (d.deposit_amount - amount))
  pub deposits : p'.current_total_deposits ≡ q.current_total_deposits
  pub utilized : p'.current_utilized ≡ q.current_utilized
  pub yield : p'.total_pending_yield ≡ q.total_pending_yield
  pub requests : p'.pending_withdrawal_requests ≡ q.pending_withdrawal_requests

record_withdrawal-WithdrawalSteps :
    (p : PoolState) (d : PoolDeposit) (amount : ℕ) (c : PoolCall) (p' : PoolState)
    (d' : PoolDeposit) (q : PoolState) (e : PoolDeposit)
    → record_withdrawal p d amount c ≡ ok (p', d')
    → clear_withdrawal_request (drawn_pool p amount c) (drawn_deposit d amount) ≡ ok (q, e)
    → WithdrawalSteps p d amount c p' d' q
unfolding record_withdrawal
record_withdrawal-WithdrawalSteps p d amount c p' d' q e h k = ground arith

record_withdrawal_clears :
    (p : PoolState) (d : PoolDeposit) (amount : ℕ) (c : PoolCall) (p' : PoolState)
    (d' : PoolDeposit) (e : StendarError)
    → record_withdrawal p d amount c ≡ ok (p', d')
    → clear_withdrawal_request (drawn_pool p amount c) (drawn_deposit d amount) ≡ err e
    → ⊥
unfolding record_withdrawal
record_withdrawal_clears p d amount c p' d' e h k = ground arith

pub record_withdrawal-IsWithdrawn :
    (p : PoolState) (d : PoolDeposit) (amount : ℕ) (c : PoolCall) (p' : PoolState)
    (d' : PoolDeposit)
    → record_withdrawal p d amount c ≡ ok (p', d')
    → bit d.withdrawal_requested ≤ p.pending_withdrawal_requests
    → amount + p.current_utilized ≤ p.current_total_deposits
    → IsWithdrawn p d amount p' d'
record_withdrawal-IsWithdrawn p d amount c p' d' h q s =
    elim (Result-cases
      (clear_withdrawal_request (drawn_pool p amount c) (drawn_deposit d amount))) [
        | inl ((m, e), k) ↦
            let steps = record_withdrawal-WithdrawalSteps p d amount c p' d' m e h k in
            let (same, requests) =
              refresh_pool_idle_since-SameTotals
                (record p { current_total_deposits = p.current_total_deposits - amount }) c.now in
            let cleared =
              clear_withdrawal_request-IsCleared (drawn_pool p amount c) (drawn_deposit d amount) m
                d' steps.clears (omega (arith, requests, q)) in
            ground arith
        | inr (e, k) ↦ absurd (record_withdrawal_clears p d amount c p' d' e h k)
      ]
