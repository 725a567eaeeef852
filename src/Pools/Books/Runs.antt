-- ===== src/Pools/Books/Runs.antt =====
-- The life of a pool as a sequence of the instructions of
-- programs/stendar/src/instructions/pools.rs, in any order, by any callers, at any times, on any of
-- its deposits. A pool's account is written by no other instruction, and a deposit's account by no
-- other than these.
use stendar_l.Base.{ℕ, ◌≡◌, ◌≢◌, List, ◌∷◌, ◌++◌, Option}
use stendar_l.Base.Int.{ℤ}
use stendar_l.Error.{ok}
use stendar_l.State.Contract.{Pubkey}
use stendar_l.State.Pools.{PoolState, PoolDeposit}
use stendar_l.Ledger.{Runtime}
use stendar_l.Pools.Call.{Holding, PoolCall}
use stendar_l.Pools.Withdraw.{
  withdraw_from_pool, request_pool_withdrawal, process_pool_withdrawal, operator_return_deposit,
}
use stendar_l.Pools.Deposit.{deposit_to_pool}
use stendar_l.Pools.Claim.{
  claim_pool_yield, bot_claim_pool_yield, compound_pool_yield, set_yield_preference,
}
use stendar_l.Pools.Changes.{PendingPoolChange, apply_pool_changes, pause_pool, resume_pool}
use stendar_l.Pools.Deploy.{Lending, LendingCall, pool_deploy_to_contract, pool_claim_from_escrow}

-- An instruction on one deposit that succeeds.
pub data Touches (r : Runtime) : Holding → Holding → Type 0 where
  deposits :
      (h h' : Holding) (c : PoolCall) (amount : ℕ)
      → deposit_to_pool r c h amount ≡ ok h'
      → h.deposit.account_version ≢ 0
      → Touches r h h'
  withdraws :
      (h h' : Holding) (c : PoolCall) (amount : ℕ)
      → withdraw_from_pool r c h amount ≡ ok h'
      → Touches r h h'
  requests :
      (h h' : Holding) (c : PoolCall) (amount : ℕ)
      → request_pool_withdrawal c h amount ≡ ok h'
      → Touches r h h'
  processes :
      (h h' : Holding) (c : PoolCall) → process_pool_withdrawal r c h ≡ ok h' → Touches r h h'
  returns : (h h' : Holding) (c : PoolCall) → operator_return_deposit r c h ≡ ok h' → Touches r h h'
  claims : (h h' : Holding) (c : PoolCall) → claim_pool_yield r c h ≡ ok h' → Touches r h h'
  bot_claims : (h h' : Holding) (c : PoolCall) → bot_claim_pool_yield r c h ≡ ok h' → Touches r h h'
  compounds : (h h' : Holding) (c : PoolCall) → compound_pool_yield r c h ≡ ok h' → Touches r h h'
  prefers :
      (h : Holding) (c : PoolCall) (d' : PoolDeposit) (preference : ℕ)
      → set_yield_preference c h.deposit preference ≡ ok d'
      → Touches r h (record h { deposit = d' })

-- A pool with all its deposits, before and after an instruction that succeeds: one on a deposit, a
-- first deposit into a new account, or one on the pool alone.
pub data Step (r : Runtime)
    : PoolState → List PoolDeposit → PoolState → List PoolDeposit → Type 0 where
  touches :
      (h h' : Holding) (before after : List PoolDeposit)
      → Touches r h h'
      → Step r h.pool (before ++ h.deposit ∷ after) h'.pool (before ++ h'.deposit ∷ after)
  opens :
      (h h' : Holding) (c : PoolCall) (amount : ℕ) (ds : List PoolDeposit)
      → h.deposit.account_version ≡ 0
      → deposit_to_pool r c h amount ≡ ok h'
      → Step r h.pool ds h'.pool (h'.deposit ∷ ds)
  deploys :
      (s s' : Lending) (c : LendingCall) (amount : ℕ) (ds : List PoolDeposit)
      → pool_deploy_to_contract r s c amount ≡ ok s'
      → Step r s.pool ds s'.pool ds
  claims_back :
      (s s' : Lending) (c : LendingCall) (bot escrow_key escrow_usdc : Pubkey)
      (ds : List PoolDeposit)
      → pool_claim_from_escrow r s c bot escrow_key escrow_usdc ≡ ok s'
      → Step r s.pool ds s'.pool ds
  applies :
      (p p' : PoolState) (pending : PendingPoolChange) (k s : Pubkey) (now : ℤ)
      (left : Option PendingPoolChange) (ds : List PoolDeposit)
      → apply_pool_changes p pending k s now ≡ ok (p', left)
      → Step r p ds p' ds
  pauses :
      (p p' : PoolState) (s : Pubkey) (ds : List PoolDeposit)
      → pause_pool p s ≡ ok p'
      → Step r p ds p' ds
  resumes :
      (p p' : PoolState) (s : Pubkey) (ds : List PoolDeposit)
      → resume_pool p s ≡ ok p'
      → Step r p ds p' ds

-- Any number of steps.
pub data Run (r : Runtime)
    : PoolState → List PoolDeposit → PoolState → List PoolDeposit → Type 0 where
  stop : (p : PoolState) (ds : List PoolDeposit) → Run r p ds p ds
  next :
      (p q p' : PoolState) (ds es ds' : List PoolDeposit)
      → Step r p ds q es
      → Run r q es p' ds'
      → Run r p ds p' ds'
