-- ===== src/Pools/Books/Deposits.antt =====
-- A deposit keeps the books (the end of `deposit_to_pool`).
use stendar_l.Base.{
  ℕ, ◌+◌, ◌*◌, ◌/◌, ◌≤◌, ◌<◌, ◌≡◌, ◌⊎◌, inl, inr, arith, ltb, refl, ◌∙◌, ◌==◌, if◌then◌else◌, ◌∙◌,
  ◌==◌, if◌then◌else◌,
}
use stendar_l.Base.Int.{ℤ}
use stendar_l.Base.Word.{u32_max, u64_max, checked_add}
use stendar_l.Error.{StendarError, ok_or, ok, >>=-eq-ok}
use stendar_l.State.Pools.{PoolState, PoolDeposit}
use stendar_l.Utils.Fees.{calculate_fee_tenths_bps}
use stendar_l.Utils.Scale.{mul_div_u64}
use stendar_l.Utils.Scale.Exact.{div_bounds}
use stendar_l.Pools.Call.{PoolCall, refresh_pool_idle_since, clear_withdrawal_request}
use stendar_l.Pools.Deposit.{record_deposit}
use stendar_l.Pools.Books.{IsPosted, Counts, bit}
use stendar_l.Pools.Books.Requests.{
  refresh_pool_idle_since-SameTotals, clear_withdrawal_request-IsCleared,
}

-- What a deposit of an amount, its fee taken off, does.
pub record IsDeposited (p : PoolState) (d : PoolDeposit) (net : ℕ) (p' : PoolState)
    (d' : PoolDeposit) : Type 0 where
  pub posted : IsPosted p d p' d'
  pub principal : d'.deposit_amount ≡ d.deposit_amount + net
  pub total : p'.current_total_deposits ≡ p.current_total_deposits + net

-- The deposit and the pool as the clearing of the request finds them.
abbrev grown_deposit : PoolDeposit → ℕ → ℤ → PoolDeposit
grown_deposit d amount now = record d {
  deposit_amount = amount;
  deposit_timestamp = if d.deposit_amount == 0 then now else d.deposit_timestamp;
}

abbrev grown_pool : PoolState → (total depositors : ℕ) → ℤ → PoolState
grown_pool p total depositors now =
    record (refresh_pool_idle_since (record p { current_total_deposits = total }) now) {
      num_depositors = depositors;
    }

record DepositSteps (p : PoolState) (d : PoolDeposit) (net : ℕ) (c : PoolCall) (p' : PoolState)
    (d' q : PoolDeposit) (m : PoolState) : Type 0 where
  pub clears : clear_withdrawal_request m q ≡ ok (p', d')
  pub principal : q.deposit_amount ≡ d.deposit_amount + net
  pub yield : q.accrued_yield ≡ d.accrued_yield
  pub requested : q.withdrawal_requested ≡ d.withdrawal_requested
  pub total : m.current_total_deposits ≡ p.current_total_deposits + net
  pub utilized : m.current_utilized ≡ p.current_utilized
  pub pending : m.total_pending_yield ≡ p.total_pending_yield
  pub requests : m.pending_withdrawal_requests ≡ p.pending_withdrawal_requests
  pub depositors : m.num_depositors + bit (ltb 0 d.deposit_amount) ≡ p.num_depositors + 1

record_deposit-DepositSteps :
    (p : PoolState) (d : PoolDeposit) (net : ℕ) (c : PoolCall) (p' : PoolState) (d' : PoolDeposit)
    → record_deposit p d net c ≡ ok (p', d')
    → (q : PoolDeposit) × (m : PoolState) × DepositSteps p d net c p' d' q m
unfolding record_deposit
record_deposit-DepositSteps p d net c p' d' h =
    let (total, e1, r1) =
      >>=-eq-ok
        (ok_or (checked_add u64_max p.current_total_deposits net) StendarError.arithmetic_overflow)
        _ h in
    let (amount, e2, r2) =
      >>=-eq-ok (ok_or (checked_add u64_max d.deposit_amount net) StendarError.arithmetic_overflow)
        _ r1 in
    let before =
      (refresh_pool_idle_since (record p { current_total_deposits = total })
        c.now).num_depositors in
    let (depositors, e3, clears) =
      >>=-eq-ok
        (if d.deposit_amount == 0
          then ok_or (checked_add u32_max before 1) StendarError.arithmetic_overflow
          else ok before)
        _ r2 in
    let (same, requests) =
      refresh_pool_idle_since-SameTotals (record p { current_total_deposits = total }) c.now in
    (
      grown_deposit d amount c.now,
      grown_pool p total depositors c.now,
      record {
        clears = clears;
        principal = ground (arith, e2);
        yield = refl;
        requested = refl;
        total = ground (arith, e1, same.deposits);
        utilized = same.utilized;
        pending = same.yield;
        requests = requests;
        depositors = ground (arith, e3, same.depositors);
      },
    )

pub record_deposit-IsDeposited :
    (p : PoolState) (d : PoolDeposit) (net : ℕ) (c : PoolCall) (p' : PoolState) (d' : PoolDeposit)
    → record_deposit p d net c ≡ ok (p', d')
    → bit d.withdrawal_requested ≤ p.pending_withdrawal_requests
    → p.current_utilized ≤ p.current_total_deposits
    → IsDeposited p d net p' d'
record_deposit-IsDeposited p d net c p' d' h q s =
    let (e, m, steps) = record_deposit-DepositSteps p d net c p' d' h in
    let requested = steps.requested in
    let cleared =
      clear_withdrawal_request-IsCleared m e p' d' steps.clears
        (rw (steps.requested, steps.requests) q) in
    record {
      posted = record {
        deposits = omega (
          arith, cleared.totals.deposits, cleared.holding.principal, steps.total, steps.principal,
        );
        yield =
            omega (arith, cleared.totals.yield, cleared.holding.yield, steps.yield, steps.pending);
        requests =
            ground (arith, cleared.requests, cleared.cleared, steps.requests, steps.requested);
        utilized = cleared.totals.utilized ∙ steps.utilized;
        covered =
            omega (
              arith, cleared.totals.utilized, cleared.totals.deposits, steps.utilized, steps.total,
            );
      };
      principal = cleared.holding.principal ∙ steps.principal;
      total = cleared.totals.deposits ∙ steps.total;
    }

-- A deposit of something counts one depositor more, if there was nothing before.
pub record_deposit-Counts :
    (p : PoolState) (d : PoolDeposit) (net : ℕ) (c : PoolCall) (p' : PoolState) (d' : PoolDeposit)
    → record_deposit p d net c ≡ ok (p', d')
    → bit d.withdrawal_requested ≤ p.pending_withdrawal_requests
    → 0 < net
    → Counts p d p' d'
record_deposit-Counts p d net c p' d' h q s =
    let (e, m, steps) = record_deposit-DepositSteps p d net c p' d' h in
    let cleared =
      clear_withdrawal_request-IsCleared m e p' d' steps.clears
        (rw (steps.requested, steps.requests) q) in
    ground (
      arith, steps.depositors, steps.principal, cleared.totals.depositors,
      cleared.holding.principal,
    )

fee_cases :
    (amount rate : ℕ) {fee : ℕ}
    → calculate_fee_tenths_bps amount rate ≡ ok fee
    → (fee ≡ 0) ⊎ (fee ≡ amount * rate / 100_000)
unfolding calculate_fee_tenths_bps mul_div_u64
fee_cases amount rate h = ground arith

-- A fee rate below 100% leaves something.
pub calculate_fee_tenths_bps-lt :
    (amount rate : ℕ) {fee : ℕ}
    → calculate_fee_tenths_bps amount rate ≡ ok fee
    → 0 < amount
    → rate < 100_000
    → fee < amount
unfolding calculate_fee_tenths_bps
calculate_fee_tenths_bps-lt amount rate {fee} h pa pr =
    let bounds = div_bounds (amount * rate) 100_000 (omega arith) in
    let less : amount * rate < amount * 100_000 = grind arith in
    elim (fee_cases amount rate h) [
      | inl none ↦ omega arith
      | inr exact ↦ omega (arith, bounds, less)
    ]
