-- ===== src/Pools/Changes/Timelock.antt =====
-- The time lock on the terms of a pool, and what its end needs.
use stendar_l.Base.{ℕ, ◌≤◌, ◌≡◌, ◌⊎◌, arith, sym, ◌∙◌, true, Option, none, some}
use stendar_l.Base.Int.{ℤ, ◌+ℤ◌, ◌≤ℤ◌}
use stendar_l.Error.{ok}
use stendar_l.State.Contract.{Pubkey}
use stendar_l.State.Pools.{PoolState, push_rate_history}
use stendar_l.Pools.Changes.{
  PoolTerms, PendingPoolChange, propose_pool_changes, apply_pool_changes, apply_terms, apply_rate,
  pool_change_timelock_seconds, validate_pool_change_compatibility,
}

proposed_at_least :
    (p : PoolState) (k s : Pubkey) (t : PoolTerms) (at : ℤ) (pending : PendingPoolChange)
    → propose_pool_changes p k s t at ≡ ok pending
    → (pending.effective_at ≡ at +ℤ pool_change_timelock_seconds)
      × (pending.terms ≡ t)
      × (pending.operator ≡ s)
      × (p.operator ≡ s)
unfolding propose_pool_changes
proposed_at_least p k s t at pending h = ground arith

-- What an application of proposed terms does.
pub record IsApplied (p : PoolState) (pending : PendingPoolChange) (now : ℤ) (p' : PoolState)
    : Type 0 where
  pub operator : p.operator ≡ pending.operator
  pub due : pending.effective_at ≤ℤ now
  pub terms : p' ≡ apply_terms p pending.terms now
  pub capacity : (p'.capacity ≡ p.capacity) ⊎ (p'.current_total_deposits ≤ p'.capacity)
  pub queue :
      (p'.withdrawal_queue_enabled ≡ p.withdrawal_queue_enabled)
      ⊎ (p'.withdrawal_queue_enabled ≡ true)
      ⊎ (p'.pending_withdrawal_requests ≡ 0)
  pub deposits_kept : p'.current_total_deposits ≡ p.current_total_deposits
  pub utilized_kept : p'.current_utilized ≡ p.current_utilized
  pub yield_kept : p'.total_pending_yield ≡ p.total_pending_yield
  pub requests_kept : p'.pending_withdrawal_requests ≡ p.pending_withdrawal_requests
  pub depositors_kept : p'.num_depositors ≡ p.num_depositors

record RateOnly (p p' : PoolState) : Type 0 where
  pub deposits : p'.current_total_deposits ≡ p.current_total_deposits
  pub utilized : p'.current_utilized ≡ p.current_utilized
  pub yield : p'.total_pending_yield ≡ p.total_pending_yield
  pub requests : p'.pending_withdrawal_requests ≡ p.pending_withdrawal_requests
  pub depositors : p'.num_depositors ≡ p.num_depositors
  pub capacity : p'.capacity ≡ p.capacity
  pub queue : p'.withdrawal_queue_enabled ≡ p.withdrawal_queue_enabled

apply_rate-RateOnly :
    (p : PoolState) (rate : Option ℕ) (now : ℤ) → RateOnly p (apply_rate p rate now)
unfolding apply_rate push_rate_history
apply_rate-RateOnly p none now = ground arith
apply_rate-RateOnly p (some rate) now = ground arith

apply-eq :
    (p : PoolState) (pending : PendingPoolChange) (k s : Pubkey) (now : ℤ) (p' : PoolState)
    (left : Option PendingPoolChange)
    → apply_pool_changes p pending k s now ≡ ok (p', left)
    → (p.operator ≡ s)
      × (pending.operator ≡ s)
      × (pending.effective_at ≤ℤ now)
      × (validate_pool_change_compatibility p pending.terms ≡ ok tt)
      × (p' ≡ apply_terms p pending.terms now)
      × (left ≡ none)
unfolding apply_pool_changes
apply-eq p pending k s now p' left h = ground arith

apply_terms-kept :
    (p : PoolState) (t : PoolTerms) (now : ℤ)
    → let p' = apply_terms p t now in
      (p'.current_total_deposits ≡ p.current_total_deposits)
      × (p'.current_utilized ≡ p.current_utilized)
      × (p'.total_pending_yield ≡ p.total_pending_yield)
      × (p'.pending_withdrawal_requests ≡ p.pending_withdrawal_requests)
      × (p'.num_depositors ≡ p.num_depositors)
unfolding apply_terms
apply_terms-kept p t now =
    let rate = apply_rate-RateOnly p t.rate_bps now in
    (rate.deposits, rate.utilized, rate.yield, rate.requests, rate.depositors)

apply_terms-limits :
    (p : PoolState) (t : PoolTerms) (now : ℤ)
    → validate_pool_change_compatibility p t ≡ ok tt
    → let p' = apply_terms p t now in
      ((p'.capacity ≡ p.capacity) ⊎ (p'.current_total_deposits ≤ p'.capacity))
      × ((p'.withdrawal_queue_enabled ≡ p.withdrawal_queue_enabled)
          ⊎ (p'.withdrawal_queue_enabled ≡ true)
          ⊎ (p'.pending_withdrawal_requests ≡ 0))
unfolding apply_terms validate_pool_change_compatibility
apply_terms-limits p t now h = let rate = apply_rate-RateOnly p t.rate_bps now in ground arith

pub apply_pool_changes-IsApplied :
    (p : PoolState) (pending : PendingPoolChange) (k s : Pubkey) (now : ℤ) (p' : PoolState)
    (left : Option PendingPoolChange)
    → apply_pool_changes p pending k s now ≡ ok (p', left)
    → IsApplied p pending now p' × (s ≡ pending.operator) × (left ≡ none)
apply_pool_changes-IsApplied p pending k s now p' left e =
    let (own, operator, past, valid, same, closed) = apply-eq p pending k s now p' left e in
    let kept = apply_terms-kept p pending.terms now in
    let limits = apply_terms-limits p pending.terms now valid in
    (
      record {
        operator = own ∙ sym operator;
        due = past;
        terms = same;
        capacity = rw same limits.0;
        queue = rw same limits.1;
        deposits_kept = rw same kept.0;
        utilized_kept = rw same kept.1;
        yield_kept = rw same kept.2;
        requests_kept = rw same kept.3;
        depositors_kept = rw same kept.4;
      },
      sym operator,
      closed,
    )

-- Terms that are proposed and applied as they were proposed take effect no sooner than 72 hours
-- later, and the pool's operator gave them. The capacity they leave is the old one or covers the
-- deposits, the queue is off only if it was before or no request waits in it, and no total changes.
pub terms_wait_for_time_lock :
    (p q : PoolState) (k s s' : Pubkey) (t : PoolTerms) (proposed_at now : ℤ)
    (pending : PendingPoolChange) (q' : PoolState) (left : Option PendingPoolChange)
    → propose_pool_changes p k s t proposed_at ≡ ok pending
    → apply_pool_changes q pending k s' now ≡ ok (q', left)
    → IsApplied q pending now q'
      × (s' ≡ s)
      × (p.operator ≡ s)
      × (pending.terms ≡ t)
      × (left ≡ none)
      × (proposed_at +ℤ pool_change_timelock_seconds ≤ℤ now)
terms_wait_for_time_lock p q k s s' t proposed_at now pending q' left h e =
    let (due, terms, operator, own) = proposed_at_least p k s t proposed_at pending h in
    let (applied, operator', closed) = apply_pool_changes-IsApplied q pending k s' now q' left e in
    (applied, operator' ∙ operator, own, terms, closed, rw (← due) applied.due)
