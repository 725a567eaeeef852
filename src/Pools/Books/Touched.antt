-- ===== src/Pools/Books/Touched.antt =====
-- What every instruction on one deposit posts to the books.
use stendar_l.Base.{ℕ, ◌≤◌, ◌≡◌, ◌≢◌, inl, inr, arith}
use stendar_l.Error.{ok}
use stendar_l.State.Pools.{PoolState, PoolDeposit}
use stendar_l.Ledger.{Runtime}
use stendar_l.Pools.Call.{Holding, PoolCall}
use stendar_l.Pools.Withdraw.Effect.{withdraw_from_pool-pays_or_queues}
use stendar_l.Pools.Withdraw.Others.{
  request_pool_withdrawal-IsWaiting, process_pool_withdrawal-IsPaidOut,
  operator_return_deposit-IsPaidOut,
}
use stendar_l.Pools.Deposit.{deposit_to_pool, initialize}
use stendar_l.Pools.Deposit.Steps.{deposit_to_pool-DepositRun}
use stendar_l.Pools.Deposit.Effect.{run-IsPaidIn, open_cases}
use stendar_l.Pools.Claim.{set_yield_preference}
use stendar_l.Pools.Claim.Effect.{claim_pool_yield-IsPaidYield, bot_claim_pool_yield-IsPaidYield}
use stendar_l.Pools.Claim.Compound.{compound_pool_yield-IsReinvested}
use stendar_l.Pools.Books.{IsPosted, bit}
use stendar_l.Pools.Books.Runs.{
  Touches, deposits, withdraws, requests, processes, returns, claims, bot_claims, compounds,
  prefers,
}

-- A deposit into an account that the depositor holds already posts to that account.
deposit-IsPosted :
    (r : Runtime) (c : PoolCall) (h : Holding) (amount : ℕ) (h' : Holding)
    → deposit_to_pool r c h amount ≡ ok h'
    → h.deposit.account_version ≢ 0
    → bit h.deposit.withdrawal_requested ≤ h.pool.pending_withdrawal_requests
    → h.pool.current_utilized ≤ h.pool.current_total_deposits
    → IsPosted h.pool h.deposit h'.pool h'.deposit
deposit-IsPosted r c h amount h' e old q s =
    let run = deposit_to_pool-DepositRun r c h amount h' e in
    elim (open_cases c h.deposit run.opened run.opens) [
      | inl (new, same) ↦ absurd (old new)
      | inr (version, by, at, same) ↦
          rw same at (run-IsPaidIn r c h amount h' run (rw same q) s).posted
    ]

-- A deposit into a new account posts to one that holds nothing.
pub opening-IsPosted :
    (r : Runtime) (c : PoolCall) (h : Holding) (amount : ℕ) (h' : Holding)
    → deposit_to_pool r c h amount ≡ ok h'
    → h.deposit.account_version ≡ 0
    → h.pool.current_utilized ≤ h.pool.current_total_deposits
    → IsPosted h.pool (initialize c.depositor c.pool_key c.now) h'.pool h'.deposit
unfolding initialize
opening-IsPosted r c h amount h' e new s =
    let run = deposit_to_pool-DepositRun r c h amount h' e in
    elim (open_cases c h.deposit run.opened run.opens) [
      | inl (_, same) ↦
          rw same at (run-IsPaidIn r c h amount h' run (rw same (omega arith)) s).posted
      | inr (version, by, at, same) ↦ absurd (omega (arith, version, new))
    ]

prefers-IsPosted :
    (p : PoolState) (c : PoolCall) (d d' : PoolDeposit) (preference : ℕ)
    → set_yield_preference c d preference ≡ ok d'
    → p.current_utilized ≤ p.current_total_deposits
    → IsPosted p d p d'
unfolding set_yield_preference
prefers-IsPosted p c d d' preference e s = ground arith

pub Touches-IsPosted :
    (r : Runtime) (h h' : Holding)
    → Touches r h h'
    → bit h.deposit.withdrawal_requested ≤ h.pool.pending_withdrawal_requests
    → h.pool.current_utilized ≤ h.pool.current_total_deposits
    → IsPosted h.pool h.deposit h'.pool h'.deposit
Touches-IsPosted r h h' (deposits _ _ c amount e old) q s =
    deposit-IsPosted r c h amount h' e old q s
Touches-IsPosted r h h' (withdraws _ _ c amount e) q s =
    elim (withdraw_from_pool-pays_or_queues r c h amount h' e q s) [
      | inl (free, paid) ↦ paid.posted
      | inr (short, queue, waiting) ↦ waiting.posted
    ]
Touches-IsPosted r h h' (requests _ _ c amount e) q s =
    (request_pool_withdrawal-IsWaiting c h amount h' e s).1.posted
Touches-IsPosted r h h' (processes _ _ c e) q s =
    (process_pool_withdrawal-IsPaidOut r c h h' e q s).1.posted
Touches-IsPosted r h h' (returns _ _ c e) q s =
    let (amount, some, least, tests, paid) = operator_return_deposit-IsPaidOut r c h h' e q s in
    paid.posted
Touches-IsPosted r h h' (claims _ _ c e) q s = (claim_pool_yield-IsPaidYield r c h h' e s).posted
Touches-IsPosted r h h' (bot_claims _ _ c e) q s =
    (bot_claim_pool_yield-IsPaidYield r c h h' e s).posted
Touches-IsPosted r h h' (compounds _ _ c e) q s =
    (compound_pool_yield-IsReinvested r c h h' e s).posted
Touches-IsPosted r h _ (prefers _ c d' preference e) q s =
    prefers-IsPosted h.pool c h.deposit d' preference e s
