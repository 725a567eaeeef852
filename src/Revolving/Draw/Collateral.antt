-- ===== src/Revolving/Draw/Collateral.antt =====
-- The direction of the collateral test of a draw.
use stendar_l.Base.{ℕ, ◌≤◌, ◌<◌, ◌*◌, ◌≡◌, arith}
use stendar_l.Error.{ok}
use stendar_l.State.Contract.{DebtContract}
use stendar_l.Utils.Oracle.{calculate_ltv_bps}
use stendar_l.Utils.Scale.Exact.{div_mono}
use stendar_l.Revolving.Draw.{require_ltv}

positive_debt : (c : DebtContract) (value debt : ℕ) → require_ltv c value debt ≡ ok tt → 0 < debt
unfolding require_ltv calculate_ltv_bps
positive_debt c value debt h = ground arith

-- A draw's collateral test that passes for one collateral value passes for every smaller one, as the
-- ratio it bounds from above is collateral over debt.
pub require_ltv_antitone :
    (c : DebtContract) (value smaller debt : ℕ)
    → smaller ≤ value
    → require_ltv c value debt ≡ ok tt
    → require_ltv c smaller debt ≡ ok tt
unfolding require_ltv calculate_ltv_bps
require_ltv_antitone c value smaller debt le h =
    let below =
      div_mono (smaller * 10_000) (value * 10_000) debt (positive_debt c value debt h)
        (omega arith) in
    ground arith
