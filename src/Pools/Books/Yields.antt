-- ===== src/Pools/Books/Yields.antt =====
-- A claim and a compounding keep the books (the ends of `claim_pool_yield` and of
-- `compound_pool_yield`).
use stendar_l.Base.{ℕ, ◌+◌, ◌≤◌, ◌≡◌, arith}
use stendar_l.Error.{ok}
use stendar_l.State.Pools.{PoolState, PoolDeposit, consume_pending_yield}
use stendar_l.Pools.Claim.{record_claim, record_compounding}
use stendar_l.Pools.Books.{IsPosted, Counts}

-- What a claim does: the yield is no longer owed, and no principal moves.
pub record IsClaimed (p : PoolState) (d : PoolDeposit) (gross net : ℕ) (p' : PoolState)
    (d' : PoolDeposit) : Type 0 where
  pub posted : IsPosted p d p' d'
  pub counts : Counts p d p' d'
  pub none_left : d'.accrued_yield ≡ 0
  pub principal : d'.deposit_amount ≡ d.deposit_amount
  pub claimed : d'.total_yield_claimed ≡ d.total_yield_claimed + net
  pub distributed : p'.total_yield_distributed ≡ p.total_yield_distributed + net

pub record_claim-IsClaimed :
    (p : PoolState) (d : PoolDeposit) (gross net : ℕ) (p' : PoolState) (d' : PoolDeposit)
    → record_claim p d gross net ≡ ok (p', d')
    → d.accrued_yield ≡ gross
    → p.current_utilized ≤ p.current_total_deposits
    → IsClaimed p d gross net p' d'
unfolding record_claim consume_pending_yield
record_claim-IsClaimed p d gross net p' d' h g s = ground arith

-- What a compounding does: the yield is no longer owed, and what is left of it after the fee is
-- principal.
pub record IsCompounded (p : PoolState) (d : PoolDeposit) (gross net : ℕ) (p' : PoolState)
    (d' : PoolDeposit) : Type 0 where
  pub posted : IsPosted p d p' d'
  pub none_left : d'.accrued_yield ≡ 0
  pub principal : d'.deposit_amount ≡ d.deposit_amount + net
  pub total : p'.current_total_deposits ≡ p.current_total_deposits + net
  pub compounded : d'.total_yield_compounded ≡ d.total_yield_compounded + net
  pub distributed : p'.total_yield_distributed ≡ p.total_yield_distributed + net
  pub depositors : p'.num_depositors ≡ p.num_depositors

pub record_compounding-IsCompounded :
    (p : PoolState) (d : PoolDeposit) (gross net : ℕ) (p' : PoolState) (d' : PoolDeposit)
    → record_compounding p d gross net ≡ ok (p', d')
    → d.accrued_yield ≡ gross
    → p.current_utilized ≤ p.current_total_deposits
    → IsCompounded p d gross net p' d'
unfolding record_compounding consume_pending_yield
record_compounding-IsCompounded p d gross net p' d' h g s = ground arith
