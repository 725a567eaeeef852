-- ===== src/Pools/Books.antt =====
-- The books of a pool: its totals against the deposits that depositors hold in it. One instruction
-- of programs/stendar/src/instructions/pools.rs touches one deposit; `IsPosted` says what it does to
-- the totals and to that deposit, and `Balanced` relates the totals to all deposits.
pub mod Requests
pub mod Accrual
pub mod Withdrawals
pub mod Deposits
pub mod Yields
pub mod Runs
pub mod Touched
pub mod Balance
use stendar_l.Base.{
  ℕ, zero, suc, ◌+◌, ◌≤◌, ◌<◌, ◌≡◌, Bool, true, false, ltb, if◌then◌else◌, List, [], ◌∷◌, ◌++◌,
  arith, refl,
}
use stendar_l.State.Pools.{PoolState, PoolDeposit}

-- One, if the test holds.
abbrev pub bit : Bool → ℕ
bit b = if b then 1 else 0

-- What every instruction that pays or credits a deposit does to the books.
pub record IsPosted (p : PoolState) (d : PoolDeposit) (p' : PoolState) (d' : PoolDeposit)
    : Type 0 where
  pub deposits :
      p'.current_total_deposits + d.deposit_amount ≡ p.current_total_deposits + d'.deposit_amount
  pub yield : p'.total_pending_yield + d.accrued_yield ≡ p.total_pending_yield + d'.accrued_yield
  pub requests :
      p'.pending_withdrawal_requests + bit d.withdrawal_requested
      ≡ p.pending_withdrawal_requests + bit d'.withdrawal_requested
  pub utilized : p'.current_utilized ≡ p.current_utilized
  pub covered : p'.current_utilized ≤ p'.current_total_deposits

-- What it does to the count of depositors, where it counts them.
abbrev pub Counts : PoolState → PoolDeposit → PoolState → PoolDeposit → Type 0
Counts p d p' d' =
    p'.num_depositors + bit (ltb 0 d.deposit_amount)
    ≡ p.num_depositors + bit (ltb 0 d'.deposit_amount)

pub IsPosted-trans :
    {p q r : PoolState} {c d e : PoolDeposit}
    → IsPosted p c q d
    → IsPosted q d r e
    → IsPosted p c r e
IsPosted-trans a b = record {
  deposits = omega (arith, a.deposits, b.deposits);
  yield = omega (arith, a.yield, b.yield);
  requests = omega (arith, a.requests, b.requests);
  utilized = omega (arith, a.utilized, b.utilized);
  covered = b.covered;
}

-- The sums over all deposits.
abbrev pub total_of : (PoolDeposit → ℕ) → List PoolDeposit → ℕ
total_of f [] = 0
total_of f (d ∷ ds) = f d + total_of f ds

pub total_of-split :
    (f : PoolDeposit → ℕ) (before : List PoolDeposit) (d : PoolDeposit) (after : List PoolDeposit)
    → total_of f (before ++ d ∷ after) ≡ f d + total_of f (before ++ after)
total_of-split f [] d after = refl
total_of-split f (b ∷ before) d after = omega (arith, total_of-split f before d after)

-- The pool's totals are those of its deposits.
pub record Balanced (p : PoolState) (ds : List PoolDeposit) : Type 0 where
  pub deposits : p.current_total_deposits ≡ total_of (λ (d : PoolDeposit). d.deposit_amount) ds
  pub yield : p.total_pending_yield ≡ total_of (λ (d : PoolDeposit). d.accrued_yield) ds
  pub requests :
      p.pending_withdrawal_requests ≡ total_of (λ (d : PoolDeposit). bit d.withdrawal_requested) ds
  pub covered : p.current_utilized ≤ p.current_total_deposits

-- Whose deposit is in a request is among those that are counted.
pub request_counted :
    (p : PoolState) (before : List PoolDeposit) (d : PoolDeposit) (after : List PoolDeposit)
    → Balanced p (before ++ d ∷ after)
    → bit d.withdrawal_requested ≤ p.pending_withdrawal_requests
request_counted p before d after b = omega (
  arith,
  b.requests,
  total_of-split (λ (d : PoolDeposit). bit d.withdrawal_requested) before d after,
)

-- Books that balance still do when a deposit changes as the totals do.
pub IsPosted-Balanced :
    (p p' : PoolState) (before : List PoolDeposit) (d d' : PoolDeposit) (after : List PoolDeposit)
    → IsPosted p d p' d'
    → Balanced p (before ++ d ∷ after)
    → Balanced p' (before ++ d' ∷ after)
IsPosted-Balanced p p' before d d' after m b = record {
  deposits =
      let f : PoolDeposit → ℕ = λ x. x.deposit_amount in
      omega (
        arith,
        m.deposits,
        b.deposits,
        total_of-split f before d after,
        total_of-split f before d' after,
      );
  yield =
      let f : PoolDeposit → ℕ = λ x. x.accrued_yield in
      omega (
        arith,
        m.yield,
        b.yield,
        total_of-split f before d after,
        total_of-split f before d' after,
      );
  requests =
      let f : PoolDeposit → ℕ = λ x. bit x.withdrawal_requested in
      omega (
        arith,
        m.requests,
        b.requests,
        total_of-split f before d after,
        total_of-split f before d' after,
      );
  covered = m.covered;
}
