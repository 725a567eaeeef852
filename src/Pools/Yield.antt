-- ===== src/Pools/Yield.antt =====
-- What accrual does to a pool and a deposit (`accrue_deposit_yield`).
use stendar_l.Base.{ℕ, zero, suc, ◌+◌, ◌≤◌, ◌≡◌, ◌⊎◌, inl, inr, arith, refl}
use stendar_l.Base.Int.{ℤ, -ℤ_self, ◌≤ℤ◌, ◌<ℤ◌}
use stendar_l.Error.{ok, ◌>>=◌, >>=-eq-ok}
use stendar_l.State.Pools.{PoolState, PoolDeposit, rate_history_entry_count}
use stendar_l.Pools.{
  resolve_rate_at_timestamp, Segment, calculate_accrued_yield, end_segment, accrue_segments,
  begin_current, yield_since, credit_yield, accrue_deposit_yield,
}

-- A crediting of what has newly accrued: it and what was deferred are credited, as far as the pool's
-- liquidity covers all that the pool then owes, and otherwise deferred.
pub record IsCredited (p : PoolState) (d : PoolDeposit) (newly credited : ℕ) (p' : PoolState)
    (d' : PoolDeposit) : Type 0 where
  pub to_deposit : d'.accrued_yield ≡ d.accrued_yield + credited
  pub by_pool : p'.total_pending_yield ≡ p.total_pending_yield + credited
  pub nothing_lost : credited + d'.deferred_yield ≡ d.deferred_yield + newly
  pub deferred_for_want :
      (d'.deferred_yield ≡ 0)
      ⊎ (p'.current_total_deposits ≤ p'.total_pending_yield + p'.current_utilized)
  pub backed :
      (credited ≡ 0) ⊎ (p'.total_pending_yield + p'.current_utilized ≤ p'.current_total_deposits)
  pub deposits_kept : p'.current_total_deposits ≡ p.current_total_deposits
  pub utilized_kept : p'.current_utilized ≡ p.current_utilized
  pub principal_kept : d'.deposit_amount ≡ d.deposit_amount

credit_yield-IsCredited :
    (p : PoolState) (d : PoolDeposit) (newly : ℕ) (now : ℤ) (credited : ℕ) (p' : PoolState)
    (d' : PoolDeposit)
    → credit_yield p d newly now ≡ ok (credited, p', d')
    → IsCredited p d newly credited p' d'
unfolding credit_yield
credit_yield-IsCredited p d newly now credited p' d' h = ground arith

pub accrue_cases :
    (p : PoolState) (d : PoolDeposit) (now : ℤ) (credited : ℕ) (p' : PoolState) (d' : PoolDeposit)
    → accrue_deposit_yield p d now ≡ ok (credited, p', d')
    → (now <ℤ d.last_yield_update) × (credited ≡ 0) × (p' ≡ p) × (d' ≡ d)
      ⊎ ((yield_since p d now >>= λ newly. credit_yield p d newly now) ≡ ok (credited, p', d'))
unfolding accrue_deposit_yield
accrue_cases p d now credited p' d' h = ground arith

pub accrue_deposit_yield-IsCredited :
    (p : PoolState) (d : PoolDeposit) (now : ℤ) (credited : ℕ) (p' : PoolState) (d' : PoolDeposit)
    → accrue_deposit_yield p d now ≡ ok (credited, p', d')
    → (now <ℤ d.last_yield_update) × (credited ≡ 0) × (p' ≡ p) × (d' ≡ d)
      ⊎ ((newly : ℕ) × (yield_since p d now ≡ ok newly) × IsCredited p d newly credited p' d')
accrue_deposit_yield-IsCredited p d now credited p' d' h =
    elim (accrue_cases p d now credited p' d' h) [
      | inl same ↦ inl same
      | inr run ↦
          let (newly, e, done) = >>=-eq-ok (yield_since p d now) _ run in
          inr (newly, e, credit_yield-IsCredited p d newly now credited p' d' done)
    ]

accrue_segments_now :
    (p : PoolState) (amount : ℕ) (now : ℤ) (left idx : ℕ) (s : Segment)
    → s.segment_start ≡ now
    → accrue_segments p amount now left idx s ≡ ok s
unfolding accrue_segments
accrue_segments_now p amount now zero idx s e = refl
accrue_segments_now p amount now (suc left) idx s e =
    let later = accrue_segments_now p amount now left (idx + 1) s e in ground arith

begin_current_now :
    (p : PoolState) (amount : ℕ) (now : ℤ) (s : Segment)
    → s.segment_start ≡ now
    → begin_current p amount now s ≡ ok s
unfolding begin_current
begin_current_now p amount now s e = ground arith

-- No time, no yield.
end_segment_now :
    (amount : ℕ) (now : ℤ) (s : Segment)
    → s.segment_start ≡ now
    → s.newly_accrued ≡ 0
    → end_segment amount s now s.active_rate_bps ≡ ok s
unfolding end_segment calculate_accrued_yield
end_segment_now amount now s e z = rw (e, -ℤ_self now) (ground arith)

yield_since_now :
    (p : PoolState) (d : PoolDeposit) (now : ℤ)
    → d.last_yield_update ≡ now
    → yield_since p d now ≡ ok 0
unfolding yield_since
yield_since_now p d now e =
    let first : Segment = record {
      newly_accrued = 0;
      segment_start = d.last_yield_update;
      active_rate_bps = resolve_rate_at_timestamp p d.last_yield_update;
    } in
    rw
      (
        accrue_segments_now p d.deposit_amount now (rate_history_entry_count p) 0 first e,
        begin_current_now p d.deposit_amount now first e,
        end_segment_now d.deposit_amount now first e refl,
      )
      refl

accrued_stamp :
    (p : PoolState) (d : PoolDeposit) (newly : ℕ) (now : ℤ) (credited : ℕ) (p' : PoolState)
    (d' : PoolDeposit)
    → credit_yield p d newly now ≡ ok (credited, p', d')
    → d'.last_yield_update ≡ now
unfolding credit_yield
accrued_stamp p d newly now credited p' d' h = ground arith

accrue_runs :
    (p : PoolState) (d : PoolDeposit) (now : ℤ) (credited : ℕ) (p' : PoolState) (d' : PoolDeposit)
    → accrue_deposit_yield p d now ≡ ok (credited, p', d')
    → d.last_yield_update ≤ℤ now
    → (yield_since p d now >>= λ newly. credit_yield p d newly now) ≡ ok (credited, p', d')
unfolding accrue_deposit_yield
accrue_runs p d now credited p' d' h past = ground arith

-- After an accrual at or past a deposit's last update, nothing more has accrued at that moment,
-- whatever the pool's rate and its history have become.
pub accrue_deposit_yield_once :
    (p : PoolState) (d : PoolDeposit) (now : ℤ) (credited : ℕ) (p' : PoolState) (d' : PoolDeposit)
    (q : PoolState)
    → accrue_deposit_yield p d now ≡ ok (credited, p', d')
    → d.last_yield_update ≤ℤ now
    → yield_since q d' now ≡ ok 0
accrue_deposit_yield_once p d now credited p' d' q h past =
    let (newly, e, done) =
      >>=-eq-ok (yield_since p d now) _ (accrue_runs p d now credited p' d' h past) in
    yield_since_now q d' now (accrued_stamp p d newly now credited p' d' done)
