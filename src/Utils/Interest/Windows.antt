-- ===== src/Utils/Interest/Windows.antt =====
-- Interest over windows of time (`calculate_interest` of programs/stendar/src/utils/interest.rs).
use native.Mathlib.Nat.{mul-le-mul_left}
use stendar_l.Base.{ℕ, zero, suc, ◌+◌, ◌*◌, ◌/◌, ◌≤◌, ◌≡◌, arith}
use stendar_l.Base.Int.{pos}
use stendar_l.Base.Word.{u64_max, u128_max}
use stendar_l.Error.{ok}
use stendar_l.Utils.Scale.{safe_u128_to_u64}
use stendar_l.Utils.Scale.Exact.{div_mono}
use stendar_l.Utils.Interest.{calculate_interest, annualized, annualized_bps_denominator}

-- What the annualized computation returns is exact, rounded down.
pub annualized-ok :
    (amount rate t value : ℕ)
    → annualized amount rate (pos t) ≡ ok value
    → (value ≡ amount * rate * t / annualized_bps_denominator)
      × (amount * rate ≤ u128_max)
      × (amount * rate * t ≤ u128_max)
      × (value ≤ u64_max)
unfolding annualized safe_u128_to_u64
annualized-ok amount rate t value h = ground arith

annualized-fits :
    (amount rate t : ℕ)
    → amount * rate ≤ u128_max
    → amount * rate * t ≤ u128_max
    → amount * rate * t / annualized_bps_denominator ≤ u64_max
    → annualized amount rate (pos t) ≡ ok (amount * rate * t / annualized_bps_denominator)
unfolding annualized safe_u128_to_u64
annualized-fits amount rate t p q r = ground arith

-- Interest that is returned is the exact amount rounded down.
pub calculate_interest-ok :
    (principal rate t interest : ℕ)
    → calculate_interest principal rate (pos t) ≡ ok interest
    → interest ≡ principal * rate * t / annualized_bps_denominator
unfolding calculate_interest
calculate_interest-ok zero rate t w h = ground arith
calculate_interest-ok (suc p) rate zero w h = ground arith
calculate_interest-ok (suc p) rate (suc t) w h =
    ground (arith, annualized-ok (suc p) rate (suc t) w)

-- A shorter window over the same principal and rate succeeds where a longer one does.
pub calculate_interest_shorter :
    (principal rate t s interest : ℕ)
    → calculate_interest principal rate (pos t) ≡ ok interest
    → s ≤ t
    → calculate_interest principal rate (pos s)
      ≡ ok (principal * rate * s / annualized_bps_denominator)
unfolding calculate_interest
calculate_interest_shorter zero rate t s w h le = ground arith
calculate_interest_shorter (suc p) rate t zero w h le = ground arith
calculate_interest_shorter (suc p) rate zero (suc s) w h le = ground arith
calculate_interest_shorter (suc p) rate (suc t) (suc s) w h le =
    let amount = suc p * rate in
    let fewer : amount * suc s ≤ amount * suc t = mul-le-mul_left amount le in
    ground (
      arith,
      annualized-ok (suc p) rate (suc t) w,
      annualized-fits (suc p) rate (suc s),
      div_mono (amount * suc s) (amount * suc t) annualized_bps_denominator,
    )

-- Splitting a window of time in two never earns more interest, and loses at most one atomic unit:
-- where the whole window is computed, so are both parts.
pub calculate_interest_split :
    (principal rate s t whole : ℕ)
    → calculate_interest principal rate (pos (s + t)) ≡ ok whole
    → (first : ℕ) × (second : ℕ) × (calculate_interest principal rate (pos s) ≡ ok first)
      × (calculate_interest principal rate (pos t) ≡ ok second)
      × (first + second ≤ whole)
      × (whole ≤ first + second + 1)
calculate_interest_split principal rate s t whole h =
    let amount = principal * rate in
    let exact = calculate_interest-ok principal rate (s + t) whole h in
    (
      amount * s / annualized_bps_denominator,
      amount * t / annualized_bps_denominator,
      calculate_interest_shorter principal rate (s + t) s whole h (omega arith),
      calculate_interest_shorter principal rate (s + t) t whole h (omega arith),
      omega arith,
      omega arith,
    )
