-- ===== src/Utils/Liquidation/Seizure.antt =====
-- The laws of programs/stendar/src/utils/liquidation.rs.
use stendar_l.Base.{ℕ, ◌+◌, ◌*◌, ◌/◌, ◌%◌, ◌⊎◌, inl, inr, ◌≤◌, ◌<◌, ◌≡◌, arith}
use native.Mathlib.Nat.{mul-le-mul_right}
use stendar_l.Error.{ok}
use stendar_l.Utils.Scale.{safe_u128_to_u64}
use stendar_l.Utils.Liquidation.{
  HealthStatus, check_health, ceil_div_u128, calculate_collateral_to_seize,
}
use stendar_l.Utils.Scale.Exact.{div_mod_sum, le_of_mul_lt}

-- How bad a health status is.
abbrev pub severity : HealthStatus → ℕ
severity HealthStatus.healthy = 0
severity HealthStatus.partial_liquidation = 1
severity HealthStatus.full_liquidation = 2

-- A higher ratio of collateral to debt never gives a worse status, and a wider buffer never gives a
-- better one.
pub check_health_mono :
    (low high floor narrow wide : ℕ)
    → low ≤ high
    → narrow ≤ wide
    → severity (check_health high floor narrow) ≤ severity (check_health low floor wide)
unfolding check_health
check_health_mono low high floor narrow wide h k = ground arith

ceil_div_u128-ok :
    (n d : ℕ) {q : ℕ}
    → ceil_div_u128 n d ≡ ok q
    → (0 < d) × ((q ≡ n / d) × (n % d ≡ 0) ⊎ (q ≡ n / d + 1) × (0 < n % d))
unfolding ceil_div_u128
ceil_div_u128-ok n d h = ground arith

-- A quotient rounded up, by its two bounds.
ceil_bounds :
    (n d q : ℕ)
    → 0 < d
    → (q ≡ n / d) × (n % d ≡ 0) ⊎ (q ≡ n / d + 1) × (0 < n % d)
    → (n ≤ q * d) × (q * d < n + d)
ceil_bounds n d q h (inl (e, whole)) = rw e (omega (arith, div_mod_sum n d h))
ceil_bounds n d q h (inr (e, part)) = rw e (omega (arith, div_mod_sum n d h))

seize_parts :
    (repay collateral value fee_bps : ℕ) {seized : ℕ}
    → calculate_collateral_to_seize repay collateral value fee_bps ≡ ok seized
    → (q : ℕ) × (ceil_div_u128 (repay * (10_000 + fee_bps) * collateral) (value * 10_000) ≡ ok q)
      × (seized ≡ q)
unfolding calculate_collateral_to_seize safe_u128_to_u64
seize_parts repay collateral value fee_bps h = ground arith

-- The collateral seized is the least whole amount whose value covers the repayment and the fee.
pub calculate_collateral_to_seize_least :
    (repay collateral value fee_bps : ℕ) {seized : ℕ}
    → calculate_collateral_to_seize repay collateral value fee_bps ≡ ok seized
    → let owed = repay * (10_000 + fee_bps) * collateral in
      (owed ≤ seized * (value * 10_000)) × (seized * (value * 10_000) < owed + value * 10_000)
unfolding calculate_collateral_to_seize
calculate_collateral_to_seize_least repay collateral value fee_bps {seized = s} h =
    let owed = repay * (10_000 + fee_bps) * collateral in
    let (q, e, same) = seize_parts repay collateral value fee_bps h in
    let (d, either) = ceil_div_u128-ok owed (value * 10_000) e in
    rw same (ceil_bounds owed (value * 10_000) q d either)

-- A repayment that the collateral's value covers with the fee never seizes more than there is.
pub calculate_collateral_to_seize-le :
    (repay collateral value fee_bps : ℕ) {seized : ℕ}
    → calculate_collateral_to_seize repay collateral value fee_bps ≡ ok seized
    → repay * (10_000 + fee_bps) ≤ value * 10_000
    → seized ≤ collateral
calculate_collateral_to_seize-le repay collateral value fee_bps {seized = s} h cover =
    let least = calculate_collateral_to_seize_least repay collateral value fee_bps h in
    le_of_mul_lt s collateral (value * 10_000) (omega (arith, mul-le-mul_right collateral cover))
