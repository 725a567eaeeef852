-- ===== src/Utils/Fees/Rates.antt =====
-- The rates of programs/stendar/src/utils/fees.rs: rounding, and the split with a frontend.
use stendar_l.Base.{ℕ, ◌+◌, ◌-◌, ◌*◌, ◌/◌, ◌≤◌, ◌<◌, ◌≡◌, arith, min, max}
use stendar_l.Base.Word.{u64_max}
use stendar_l.Error.{ok}
use stendar_l.Utils.Scale.Exact.{mul_div_u64-share}
use stendar_l.Utils.Fees.{
  calculate_fee_tenths_bps, calculate_frontend_share, calculate_secondary_market_fee,
  min_platform_fee,
}

-- A fee rate of at most 100% always gives a fee: the exact fee rounded down, so at most the amount.
pub calculate_fee_tenths_bps_total :
    (amount rate : ℕ)
    → amount ≤ u64_max
    → rate ≤ 100_000
    → let fee = amount * rate / 100_000 in
      (calculate_fee_tenths_bps amount rate ≡ ok fee)
      × (fee ≤ amount)
      × (fee * 100_000 ≤ amount * rate)
      × (amount * rate < (fee + 1) * 100_000)
unfolding calculate_fee_tenths_bps
calculate_fee_tenths_bps_total amount rate ha hr =
    grind (arith, mul_div_u64-share amount rate 100_000 ha hr (omega arith) (omega arith))

-- The frontend's share of a fee is always computed and never exceeds the fee, and what is left for
-- the treasury is a fifth of the fee rounded up.
pub calculate_frontend_share_splits :
    (fee : ℕ)
    → fee ≤ u64_max
    → let share = fee * 8_000 / 10_000 in
      (calculate_frontend_share fee ≡ ok share)
      × (share ≤ fee)
      × (fee ≤ 5 * (fee - share))
      × (5 * (fee - share) < fee + 5)
unfolding calculate_frontend_share
calculate_frontend_share_splits fee h =
    let whole = mul_div_u64-share fee 8_000 10_000 h (omega arith) (omega arith) (omega arith) in
    (ground (arith, whole), omega arith, omega arith, omega arith)

-- The fee of the secondary market is always computed: it is at least the platform's minimum, at
-- most the larger of that minimum and the amount, and no smaller for a larger amount.
pub calculate_secondary_market_fee_bounds :
    (amount more : ℕ)
    → amount ≤ more
    → more ≤ u64_max
    → (fee : ℕ) × (fee_of_more : ℕ) × (calculate_secondary_market_fee amount ≡ ok fee)
      × (calculate_secondary_market_fee more ≡ ok fee_of_more)
      × (min_platform_fee ≤ fee)
      × (fee ≤ max min_platform_fee amount)
      × (fee ≤ fee_of_more)
unfolding calculate_secondary_market_fee
calculate_secondary_market_fee_bounds amount more h hm = (
  min (max (amount * 10 / 10_000) min_platform_fee) u64_max,
  min (max (more * 10 / 10_000) min_platform_fee) u64_max,
  rw (
      (mul_div_u64-share amount 10 10_000 (omega arith) (omega arith) (omega arith)
        (omega arith)).0),
  rw ((mul_div_u64-share more 10 10_000 hm (omega arith) (omega arith) (omega arith)).0),
  omega arith,
  omega arith,
  omega arith,
)
