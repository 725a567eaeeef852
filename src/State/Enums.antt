-- ===== src/State/Enums.antt =====
-- The enumerations of programs/stendar/src/state/enums.rs. Equality of two values (`==` in the
-- source, by derived `PartialEq`) is a test on their positions.
use stendar_l.Base.{ℕ, ◌*◌, Bool, true, false, ◌||◌, List, [], ◌∷◌, ◌==◌}
use stendar_l.Base.Int.{ℤ, pos}

pub data ContractStatus : Type 0 where
  open_not_funded open_partially_funded active pending_recall completed cancelled liquidated :
      ContractStatus

pub data PoolStatus : Type 0 where
  active paused closed : PoolStatus

pub data LoanType : Type 0 where
  demand committed : LoanType

pub data PaymentFrequency : Type 0 where
  daily weekly bi_weekly monthly : PaymentFrequency

pub data DistributionMethod : Type 0 where
  manual automatic : DistributionMethod

pub data FundingAccessMode : Type 0 where
  anyone allowlist_only : FundingAccessMode

pub data InterestPaymentType : Type 0 where
  outstanding_balance collateral_transfer : InterestPaymentType

pub data PrincipalPaymentType : Type 0 where
  collateral_deduction no_fixed_payment : PrincipalPaymentType

abbrev status_position : ContractStatus → ℕ
status_position ContractStatus.open_not_funded = 0
status_position ContractStatus.open_partially_funded = 1
status_position ContractStatus.active = 2
status_position ContractStatus.pending_recall = 3
status_position ContractStatus.completed = 4
status_position ContractStatus.cancelled = 5
status_position ContractStatus.liquidated = 6

abbrev pub status_eq : ContractStatus → ContractStatus → Bool
status_eq a b = status_position a == status_position b

abbrev pub is_committed : LoanType → Bool
is_committed LoanType.committed = true
is_committed LoanType.demand = false

abbrev pub is_collateral_transfer : InterestPaymentType → Bool
is_collateral_transfer InterestPaymentType.collateral_transfer = true
is_collateral_transfer InterestPaymentType.outstanding_balance = false

abbrev pub is_collateral_deduction : PrincipalPaymentType → Bool
is_collateral_deduction PrincipalPaymentType.collateral_deduction = true
is_collateral_deduction PrincipalPaymentType.no_fixed_payment = false

-- `ContractStatus::is_open`
abbrev pub is_open : ContractStatus → Bool
is_open s =
    status_eq s ContractStatus.open_not_funded || status_eq s ContractStatus.open_partially_funded

-- `ContractStatus::is_active`
abbrev pub is_active : ContractStatus → Bool
is_active s = status_eq s ContractStatus.active || status_eq s ContractStatus.pending_recall

-- `ContractStatus::is_terminal`
abbrev pub is_terminal : ContractStatus → Bool
is_terminal s =
    status_eq s ContractStatus.completed
    || status_eq s ContractStatus.cancelled
    || status_eq s ContractStatus.liquidated

-- `ContractStatus::valid_transitions`
abbrev pub valid_transitions : ContractStatus → List ContractStatus
valid_transitions ContractStatus.open_not_funded =
    ContractStatus.open_partially_funded ∷ ContractStatus.active ∷ ContractStatus.cancelled ∷ []
valid_transitions ContractStatus.open_partially_funded =
    ContractStatus.open_not_funded ∷ ContractStatus.active ∷ ContractStatus.cancelled ∷ []
valid_transitions ContractStatus.active =
    ContractStatus.pending_recall ∷ ContractStatus.completed ∷ ContractStatus.liquidated ∷ []
valid_transitions ContractStatus.pending_recall =
    ContractStatus.active ∷ ContractStatus.completed ∷ ContractStatus.liquidated ∷ []
valid_transitions _ = []

-- `PaymentFrequency::to_seconds`; the value is an `i64`, and never negative.
abbrev pub frequency_seconds : PaymentFrequency → ℕ
frequency_seconds PaymentFrequency.daily = 24 * 60 * 60
frequency_seconds PaymentFrequency.weekly = 7 * 24 * 60 * 60
frequency_seconds PaymentFrequency.bi_weekly = 14 * 24 * 60 * 60
frequency_seconds PaymentFrequency.monthly = 30 * 24 * 60 * 60

abbrev pub to_seconds : PaymentFrequency → ℤ
to_seconds f = pos (frequency_seconds f)

abbrev frequency_position : PaymentFrequency → ℕ
frequency_position PaymentFrequency.daily = 0
frequency_position PaymentFrequency.weekly = 1
frequency_position PaymentFrequency.bi_weekly = 2
frequency_position PaymentFrequency.monthly = 3

abbrev pub frequency_eq : PaymentFrequency → PaymentFrequency → Bool
frequency_eq a b = frequency_position a == frequency_position b
