-- ===== src/Lending/Liquidate.antt =====
-- The arithmetic and the state changes of a liquidation (programs/stendar/src/instructions/lending.rs):
-- when the term allows one, how the collateral is split, and what is written off.
pub mod WriteOff
use stendar_l.Base.{ℕ, ◌*◌, ◌==◌, ◌||◌, not, Bool, min, if◌then◌else◌}
use stendar_l.Base.Int.{ℤ, pos, ◌+ℤ◌, leb_ℤ}
use stendar_l.Base.Word.{u64_max, checked_add, checked_sub, checked_i64, saturating_sub}
use stendar_l.Error.{StendarError, Result, ok, ◌>>=◌, ◌>>◌, require, ok_or}
use stendar_l.State.Enums.{ContractStatus, LoanType, status_eq}
use stendar_l.State.Contract.{DebtContract, update_bot_tracking}
use stendar_l.State.Accounts.{PlatformState}
use stendar_l.Utils.Scale.{saturating_sub_with_log}
use stendar_l.Utils.Liquidation.{calculate_collateral_to_seize}

abbrev liquidation_fee_bps : ℕ
liquidation_fee_bps = 300

-- `is_time_liquidation_triggered`
unfoldable pub is_time_liquidation_triggered :
    LoanType
    → ContractStatus
    → (created_at : ℤ) → (term_days : ℕ) → (current_time : ℤ) → Result Bool
is_time_liquidation_triggered LoanType.demand status created_at term_days current_time =
    ok (status_eq status ContractStatus.pending_recall)
is_time_liquidation_triggered LoanType.committed status created_at term_days current_time = do
  end ←
      ok_or (checked_i64 (created_at +ℤ pos (term_days * (24 * 60 * 60))))
        StendarError.arithmetic_overflow
  ok (leb_ℤ end current_time)

-- `calculate_bot_payment`
unfoldable pub calculate_bot_payment : ℕ → ℕ → ℕ
calculate_bot_payment total_owed collateral_value_usdc = min total_owed collateral_value_usdc

-- `compute_full_liquidation_collateral_split`
unfoldable pub compute_full_liquidation_collateral_split : ℕ → ℕ → ℕ → Result (ℕ × ℕ)
compute_full_liquidation_collateral_split bot_pays_usdc all_collateral collateral_value_usdc =
    if all_collateral == 0
    then ok (0, 0)
    else if collateral_value_usdc == 0
    then ok (all_collateral, 0)
    else (do
      collateral_for_bot ←
          calculate_collateral_to_seize bot_pays_usdc all_collateral collateral_value_usdc
            liquidation_fee_bps
      let capped = min collateral_for_bot all_collateral
      ok (capped, saturating_sub all_collateral capped))

-- The contract after a full liquidation.
unfoldable pub liquidated : DebtContract → (shortfall : ℕ) → ℤ → DebtContract
liquidated c shortfall current_time =
    update_bot_tracking
      (record c {
        status = ContractStatus.liquidated;
        uncollectable_balance = shortfall;
        outstanding_balance = 0;
        collateral_amount = 0;
        accrued_interest = 0;
        drawn_amount = if c.is_revolving then 0 else c.drawn_amount;
        accrued_standby_fees = if c.is_revolving then 0 else c.accrued_standby_fees;
        available_amount = if c.is_revolving then 0 else c.available_amount;
      })
      current_time

-- The principal that is retired from the platform's debt.
unfoldable pub debt_to_retire : DebtContract → PlatformState → ℕ
debt_to_retire c state =
    min
      (if c.is_revolving
        then c.outstanding_balance
        else saturating_sub c.funded_amount c.total_principal_paid)
      state.total_debt

-- `finalize_full_liquidation`
unfoldable pub finalize_full_liquidation :
    DebtContract
    → PlatformState
    → (bot_pays_usdc total_owed : ℕ) → ℤ
    → Result (DebtContract × PlatformState)
unfolding liquidated debt_to_retire saturating_sub_with_log
finalize_full_liquidation c state bot_pays_usdc total_owed current_time = do
  require (not c.is_revolving || c.outstanding_balance == c.drawn_amount)
      StendarError.invariant_violation
  liquidations ←
      ok_or (checked_add u64_max state.total_liquidations 1) StendarError.arithmetic_overflow
  debt ←
      ok_or (checked_sub state.total_debt (debt_to_retire c state)) StendarError.arithmetic_overflow
  ok (
    liquidated c (saturating_sub total_owed bot_pays_usdc) current_time,
    record state {
      total_liquidations = liquidations;
      total_debt = debt;
      total_collateral = saturating_sub_with_log state.total_collateral c.collateral_amount;
    },
  )

-- `apply_partial_liquidation_state_updates`
unfoldable pub apply_partial_liquidation_state_updates :
    PlatformState → (capped_repay actual_seize : ℕ) → Result PlatformState
unfolding saturating_sub_with_log
apply_partial_liquidation_state_updates state capped_repay actual_seize = do
  debt ← ok_or (checked_sub state.total_debt capped_repay) StendarError.arithmetic_overflow
  ok (record state {
    total_debt = debt;
    total_collateral = saturating_sub_with_log state.total_collateral actual_seize;
  })

-- `apply_partial_liquidation_counters`
unfoldable pub apply_partial_liquidation_counters : PlatformState → Bool → Result PlatformState
apply_partial_liquidation_counters state completed_by_partial_liquidation = do
  partial ←
      ok_or (checked_add u64_max state.total_partial_liquidations 1)
        StendarError.arithmetic_overflow
  full ←
      if completed_by_partial_liquidation
      then ok_or (checked_add u64_max state.total_liquidations 1) StendarError.arithmetic_overflow
      else ok state.total_liquidations
  ok (record state { total_partial_liquidations = partial; total_liquidations = full })
