-- ===== src/Utils/Interest/Standby.antt =====
-- The standby fees of a facility (`checkpoint_standby_fees` of programs/stendar/src/utils/interest.rs):
-- what a checkpoint charges.
use stendar_l.Base.{ℕ, ◌+◌, ◌-◌, ◌/◌, false, if◌then◌else◌, ◌*◌, ◌≤◌, ◌≡◌, ◌≢◌, ◌⊎◌, true}
use stendar_l.Base.Int.{ℤ, pos, pos_part, ◌≤ℤ◌, ◌<ℤ◌, leb_ℤ, ◌-ℤ◌}
use stendar_l.Base.Word.{u64_max, checked_add, checked_sub}
use stendar_l.Error.{Result, StendarError, ok, ok_or, ◌>>=◌}
use stendar_l.State.Contract.{DebtContract}
use stendar_l.Utils.Interest.{elapsed_since, calculate_standby_fee, annualized_bps_denominator}

-- The exact fee on what is not drawn since the last checkpoint, rounded down.
abbrev pub standby_fee_due : DebtContract → ℤ → ℕ
standby_fee_due c now =
    (c.credit_limit - c.drawn_amount)
    * c.standby_fee_rate
    * pos_part (now -ℤ c.last_standby_fee_update)
    / annualized_bps_denominator

-- No fee is due: the facility is not revolving or is closed, or no time has passed.
abbrev pub NoFeeDue : DebtContract → ℤ → Type 0
NoFeeDue c now =
    (c.is_revolving ≡ false)
    ⊎ (c.revolving_closed ≡ true)
    ⊎ (c.last_standby_fee_update ≢ pos 0) × (now ≤ℤ c.last_standby_fee_update)

abbrev pub RunsOpen : DebtContract → Type 0
RunsOpen c = (c.is_revolving ≡ true) × (c.revolving_closed ≡ false)

-- What a checkpoint of the standby fees does: nothing, the first stamp, or a fee.
pub data IsCheckpointed (c : DebtContract) (now : ℤ) (c' : DebtContract) : Type 0 where
  unchanged : NoFeeDue c now → c' ≡ c → IsCheckpointed c now c'
  started :
      RunsOpen c
      → c.last_standby_fee_update ≡ pos 0
      → c' ≡ record c { last_standby_fee_update = now }
      → IsCheckpointed c now c'
  charged :
      RunsOpen c
      → c.last_standby_fee_update <ℤ now
      → c.drawn_amount ≤ c.credit_limit
      → c' ≡ record c {
        accrued_standby_fees = c.accrued_standby_fees + standby_fee_due c now;
        last_standby_fee_update = now;
      }
      → IsCheckpointed c now c'

-- The branch in which time has passed.
abbrev charge_fee : DebtContract → ℤ → ℤ → Result DebtContract
charge_fee c elapsed now = do
  undrawn ← ok_or (checked_sub c.credit_limit c.drawn_amount) StendarError.invariant_violation
  accrued ← calculate_standby_fee undrawn c.standby_fee_rate elapsed
  fees ← ok_or (checked_add u64_max c.accrued_standby_fees accrued) StendarError.arithmetic_overflow
  ok (record c { accrued_standby_fees = fees; last_standby_fee_update = now })

-- The branch of a facility that runs, after its first stamp.
abbrev charge_since : DebtContract → ℤ → Result DebtContract
charge_since c now = do
  elapsed ← elapsed_since now c.last_standby_fee_update
  if leb_ℤ elapsed (pos 0) then ok c else charge_fee c elapsed now
