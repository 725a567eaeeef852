-- ===== src/Lending/Liquidate/WriteOff.antt =====
-- What a full liquidation writes off, and how its collateral is split.
use stendar_l.Base.{ℕ, ◌+◌, ◌≤◌, ◌≡◌, ◌⊎◌, arith, false, min}
use stendar_l.Base.Int.{ℤ}
use stendar_l.Error.{ok}
use stendar_l.State.Enums.{ContractStatus}
use stendar_l.State.Contract.{DebtContract, update_bot_tracking}
use stendar_l.State.Accounts.{PlatformState}
use stendar_l.Lending.Liquidate.{
  calculate_bot_payment, compute_full_liquidation_collateral_split, finalize_full_liquidation,
  liquidated, debt_to_retire,
}

-- What a full liquidation does to the contract and the platform.
pub record IsWrittenOff (c : DebtContract) (state : PlatformState) (paid owed : ℕ)
    (c' : DebtContract) (state' : PlatformState) : Type 0 where
  pub ended : c'.status ≡ ContractStatus.liquidated
  pub nothing_owed : (c'.outstanding_balance ≡ 0) × (c'.accrued_interest ≡ 0)
  pub no_collateral : c'.collateral_amount ≡ 0
  pub closed :
      (c.is_revolving ≡ false)
      ⊎ ((c'.drawn_amount ≡ 0) × (c'.available_amount ≡ 0) × (c'.accrued_standby_fees ≡ 0))
  pub accounted : min paid owed + c'.uncollectable_balance ≡ owed
  pub retired : state'.total_debt + debt_to_retire c state ≡ state.total_debt
  pub counted : state'.total_liquidations ≡ state.total_liquidations + 1

-- A full liquidation ends the contract with no debt and no collateral left: what was owed is what the
-- bot paid and what is recorded as uncollectable, and the principal leaves the platform's debt.
pub finalize_full_liquidation-IsWrittenOff :
    (c : DebtContract) (state : PlatformState) (paid owed : ℕ) (now : ℤ) (c' : DebtContract)
    (state' : PlatformState)
    → finalize_full_liquidation c state paid owed now ≡ ok (c', state')
    → IsWrittenOff c state paid owed c' state'
unfolding finalize_full_liquidation liquidated update_bot_tracking
finalize_full_liquidation-IsWrittenOff c state paid owed now c' state' h = ground arith

-- A full liquidation splits the collateral into the bot's and the borrower's share, with nothing lost,
-- and what the bot pays is never more than what is owed or than what the collateral is worth.
pub liquidation_split :
    (owed all value : ℕ) {for_bot excess : ℕ}
    → compute_full_liquidation_collateral_split (calculate_bot_payment owed value) all value
      ≡ ok (for_bot, excess)
    → (for_bot + excess ≡ all)
      × (calculate_bot_payment owed value ≤ owed)
      × (calculate_bot_payment owed value ≤ value)
unfolding compute_full_liquidation_collateral_split calculate_bot_payment
liquidation_split owed all value h = ground arith
