-- ===== src/Utils/Interest/Accrual.antt =====
-- What accrual keeps: the caps, the clock, and that accruing twice at one time is accruing once
-- (`process_automatic_interest` of programs/stendar/src/utils/interest.rs).
use stendar_l.Base.{false, ◌*◌, ◌≤◌, ◌≡◌, ◌≢◌, ◌⊎◌, inl, inr, arith}
use stendar_l.Base.Int.{ℤ, pos, ◌-ℤ◌, -ℤ_self, ne-is_zero, is_zero}
use stendar_l.Base.Word.{u64_max}
use stendar_l.Error.{ok}
use stendar_l.State.Contract.{DebtContract}
use stendar_l.Utils.Interest.{
  process_automatic_interest, elapsed_since, accrue_revolving, accrue_term,
}

accrue_term-stamped :
    (c : DebtContract) (since now : ℤ) (c' : DebtContract)
    → accrue_term c since now ≡ ok c'
    → (c'.last_interest_update ≡ now) × (c'.is_revolving ≡ c.is_revolving)
unfolding accrue_term
accrue_term-stamped c since now c' h = ground arith

accrue_revolving-stamped :
    (c : DebtContract) (since now : ℤ) (c' : DebtContract)
    → accrue_revolving c since now ≡ ok c'
    → (c'.last_interest_update ≡ now) × (c'.is_revolving ≡ c.is_revolving)
unfolding accrue_revolving
accrue_revolving-stamped c since now c' h = ground arith

-- Accrual either leaves the contract alone or stamps it with the present.
process_automatic_interest-stamped :
    (c : DebtContract) (now : ℤ) (c' : DebtContract)
    → process_automatic_interest c now ≡ ok c'
    → is_zero c.last_interest_update ≡ false
    → (c' ≡ c) ⊎ (c'.last_interest_update ≡ now) × (c'.is_revolving ≡ c.is_revolving)
unfolding process_automatic_interest elapsed_since
process_automatic_interest-stamped c now c' h started =
    let since = now -ℤ c.last_interest_update in
    ground (arith, accrue_term-stamped c since now c', accrue_revolving-stamped c since now c')

stamped-process_automatic_interest :
    (c : DebtContract) (now : ℤ)
    → c.last_interest_update ≡ now
    → is_zero now ≡ false
    → process_automatic_interest c now ≡ ok c
unfolding process_automatic_interest
stamped-process_automatic_interest c now e nonzero = ground (arith, -ℤ_self now)

-- Once interest has been accrued up to a moment other than 0, accruing it again at that moment
-- changes nothing: no interest is charged twice.
pub process_automatic_interest_twice :
    (c : DebtContract) (now : ℤ) (c' : DebtContract)
    → process_automatic_interest c now ≡ ok c'
    → c.last_interest_update ≢ pos 0
    → now ≢ pos 0
    → process_automatic_interest c' now ≡ ok c'
process_automatic_interest_twice c now c' h started present =
    elim (process_automatic_interest-stamped c now c' h (ne-is_zero _ started)) [
      | inl same ↦ rw same (rw same at h)
      | inr stamped ↦ stamped-process_automatic_interest c' now stamped.0 (ne-is_zero _ present)
    ]

-- What interest on a revolving contract does to the money that it tracks.
pub record IsAccrued (c c' : DebtContract) : Type 0 where
  pub drawn_kept : c'.drawn_amount ≡ c.drawn_amount
  pub available_kept : c'.available_amount ≡ c.available_amount
  pub balance_kept : c'.outstanding_balance ≡ c.outstanding_balance
  pub fees_kept : c'.accrued_standby_fees ≡ c.accrued_standby_fees
  pub interest_grows : c.accrued_interest ≤ c'.accrued_interest
  pub interest_capped : c'.accrued_interest ≤ 10 * c'.credit_limit
  pub limit_kept : c'.credit_limit ≡ c.credit_limit

-- On a term loan whose interest is added to the balance, the balance never passes ten times the
-- target, if it was within that before, and never shrinks.
pub process_automatic_interest_capped :
    (c : DebtContract) (now : ℤ) (c' : DebtContract)
    → c.is_revolving ≡ false
    → c.outstanding_balance ≤ 10 * c.target_amount
    → c.outstanding_balance ≤ u64_max
    → process_automatic_interest c now ≡ ok c'
    → (c.outstanding_balance ≤ c'.outstanding_balance)
      × (c'.outstanding_balance ≤ 10 * c'.target_amount)
unfolding process_automatic_interest accrue_term
process_automatic_interest_capped c now c' r p q h = ground arith
