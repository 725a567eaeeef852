-- ===== src/Tests/Revolving.antt =====
-- An instance of each result on the revolving facility, on the runs of the module beside this one.
use stendar_l.Base.{
  ℕ, true, false, ◌+◌, ◌≤◌, ◌<◌, ◌≡◌, ◌≢◌, ◌⊎◌, refl, inl, inr, none, [], ◌∷◌, arith,
}
use stendar_l.Base.Int.{ℤ, pos, ◌≤ℤ◌}
use stendar_l.Base.Keys.{count}
use stendar_l.Error.{ok}
use stendar_l.State.Contract.{DebtContract}
use stendar_l.Revolving.Facility.{maturity, can_sweep_contract_pool}
use stendar_l.Revolving.Pairs.{require_revolving_contribution_pairs}
use stendar_l.Revolving.Pairs.Complete.{pair_keys, require_revolving_contribution_pairs_complete}
use stendar_l.Revolving.Draw.{draw_from_revolving, require_ltv}
use stendar_l.Revolving.Draw.Effect.{AdmittedDraw, IsDrawn, draw_from_revolving-IsDrawn}
use stendar_l.Revolving.Draw.Collateral.{require_ltv_antitone}
use stendar_l.Revolving.Repay.Effect.{AdmittedRepayment, IsRepaid, repay_revolving-IsRepaid}
use stendar_l.Revolving.Close.Effect.{IsClosed, close_revolving_facility-IsClosed}
use stendar_l.Revolving.Close.Matured.{bot_close_matured_revolving-IsClosed}
use stendar_l.Revolving.Distribute.Effect.{
  IsDistributed, distribute_standby_fees-IsDistributed, distribute_standby_fees-total,
}
use stendar_l.Revolving.Distribute.Shares.{contributed}
use stendar_l.Revolving.Sweep.Effect.{AdmittedSweep, sweep_contract_pool_empties}
use stendar_l.Revolving.Solvency.{IsSolvent, Step, draws, repays, stop, next}
use stendar_l.Revolving.Solvency.Runs.{Run-IsSolvent, no_draw_after_close}
use stendar_l.Revolving.Solvency.Status.{Follows, Step-Follows}
use stendar_l.Tests.Concrete.{
  simple_runtime, simple_runtime-IsTokenProgram, example_contract, example_facility,
  example_accounts, example_caller, example_bot,
}
use stendar_l.Tests.Runs.{
  unsecured, drawn, draws_100, closed, closes, shut, repaid, repays_200, matured, closes_matured,
  distributed, distributes_10, checkpointed, checkpoints, checkpointed-lenders,
  checkpointed-funding, finished, swept, sweeps_900,
}

example-IsSolvent : IsSolvent example_facility
unfolding can_sweep_contract_pool
example-IsSolvent = record {
  revolving = refl;
  apart = omega arith;
  balance = refl;
  limit = omega arith;
  backed = omega arith;
  closed_lends_nothing = inl refl;
  finished_lends_nothing = inl refl;
}

draw-Step : Step simple_runtime example_facility drawn
draw-Step = draws example_facility drawn example_caller unsecured 100 (pos 87_400) draws_100

repay-Step : Step simple_runtime shut repaid
repay-Step = repays shut repaid example_caller 200 (pos 87_400) repays_200

Run-IsSolvent_example : IsSolvent drawn
Run-IsSolvent_example =
    Run-IsSolvent simple_runtime simple_runtime-IsTokenProgram example_facility drawn
      (next example_facility drawn drawn draw-Step (stop drawn)) example-IsSolvent

no_draw_after_close_example :
    draw_from_revolving simple_runtime repaid example_caller unsecured 1 (pos 90_000) ≢ ok drawn
no_draw_after_close_example =
    no_draw_after_close simple_runtime simple_runtime-IsTokenProgram shut repaid
      (next shut repaid repaid repay-Step (stop repaid)) refl example_caller unsecured 1
      (pos 90_000) drawn

Step-Follows_example : Follows shut.contract.status repaid.contract.status
Step-Follows_example =
    Step-Follows simple_runtime simple_runtime-IsTokenProgram shut repaid repay-Step

draw_from_revolving-IsDrawn_example :
    AdmittedDraw example_facility example_caller 100
    × IsDrawn example_facility example_caller 100 drawn
    × (simple_runtime.transfer example_facility.tokens 50 51 100 100 ≡ ok drawn.tokens)
draw_from_revolving-IsDrawn_example =
    draw_from_revolving-IsDrawn simple_runtime example_facility example_caller unsecured 100
      (pos 87_400) drawn draws_100

repay_revolving-IsRepaid_example :
    AdmittedRepayment shut example_caller 200
    × IsRepaid shut example_caller 200 repaid
    × (simple_runtime.transfer shut.tokens 51 50 5 200 ≡ ok repaid.tokens)
repay_revolving-IsRepaid_example =
    repay_revolving-IsRepaid simple_runtime shut example_caller 200 (pos 87_400) repaid repays_200

close_revolving_facility-IsClosed_example : IsClosed example_facility closed
close_revolving_facility-IsClosed_example =
    close_revolving_facility-IsClosed simple_runtime example_facility example_caller 61 (pos 87_400)
      closed closes

bot_close_matured_revolving-IsClosed_example :
    (end : ℤ) × (maturity example_contract ≡ ok end)
    × (end ≤ℤ pos 2_593_001)
    × (example_facility.treasury.bot_authority ≡ 9)
    × IsClosed example_facility matured
    × (matured.tokens ≡ example_facility.tokens)
    × (matured.treasury.automated_operations ≡ example_facility.treasury.automated_operations + 1)
bot_close_matured_revolving-IsClosed_example =
    bot_close_matured_revolving-IsClosed example_facility 9 (pos 2_593_001) matured closes_matured

distribute_standby_fees-IsDistributed_example :
    (fees : ℕ) × IsDistributed example_facility example_bot fees distributed
distribute_standby_fees-IsDistributed_example =
    distribute_standby_fees-IsDistributed simple_runtime simple_runtime-IsTokenProgram
      example_facility example_bot (pos 87_400) distributed distributes_10

whole_funding : contributed example_accounts.contribution_at example_bot.remaining_accounts ≤ 1_000
unfolding contributed
whole_funding = omega arith

distribute_standby_fees-total_example :
    distributed.contract.total_standby_fees_paid
    ≡ example_facility.contract.total_standby_fees_paid + checkpointed.accrued_standby_fees
distribute_standby_fees-total_example =
    distribute_standby_fees-total simple_runtime simple_runtime-IsTokenProgram example_facility
      example_bot (pos 87_400) checkpointed distributed distributes_10 checkpoints
      checkpointed-lenders (omega (arith, checkpointed-funding, whole_funding))

sweep_contract_pool_empties_example :
    AdmittedSweep finished example_caller
    × ((swept.tokens 50).amount ≡ 0)
    × ((swept.tokens 51).amount ≡ (finished.tokens 51).amount + (finished.tokens 50).amount)
    × (swept.contract ≡ finished.contract)
sweep_contract_pool_empties_example =
    sweep_contract_pool_empties simple_runtime simple_runtime-IsTokenProgram finished example_caller
      swept (omega arith) sweeps_900

abbrev secured : DebtContract
secured = record example_contract { ltv_ratio = 12_000 }

-- A collateral of 1,100 for a debt of 1,000 is a ratio of 11,000 basis points.
passes_1100 : require_ltv secured 1_100 1_000 ≡ ok tt
unfolding require_ltv stendar_l.Utils.Oracle.calculate_ltv_bps
passes_1100 = refl

pairs_pass :
    require_revolving_contribution_pairs simple_runtime example_accounts 100
      example_contract.contributions example_caller.remaining_accounts
    ≡ ok tt
unfolding require_revolving_contribution_pairs stendar_l.Utils.Scale.require_current_version
    stendar_l.Revolving.Pairs.check_pairs stendar_l.Revolving.Pairs.check_pair
    stendar_l.Base.Keys.position stendar_l.Base.Keys.remove_key stendar_l.Base.Keys.swap_remove
pairs_pass = refl

require_revolving_contribution_pairs_complete_example :
    count 12_001 (pair_keys example_caller.remaining_accounts)
    ≡ count 12_001 example_contract.contributions
require_revolving_contribution_pairs_complete_example =
    require_revolving_contribution_pairs_complete simple_runtime example_accounts 100
      example_contract.contributions example_caller.remaining_accounts 12_001 pairs_pass

require_ltv_antitone_example : require_ltv secured 500 1_000 ≡ ok tt
require_ltv_antitone_example =
    require_ltv_antitone secured 1_100 500 1_000 (omega arith) passes_1100
