-- ===== src/State/Contract.antt =====
-- `DebtContract` of programs/stendar/src/state/mod.rs and its methods. The reserved tail bytes are
-- left out: no operation reads them.
use stendar_l.Base.{ℕ, Bool, true, false, ◌&&◌, Option, none, some, List, ltb, ◌==◌, if◌then◌else◌}
use stendar_l.Base.Int.{ℤ, pos, ◌+ℤ◌, leb_ℤ, is_zero}
use stendar_l.Base.Word.{u64_max, checked_add, saturating_add, saturating_i64}
use stendar_l.Error.{StendarError, Result, ok, ◌>>=◌, ok_or}
use stendar_l.State.Enums.{
  ContractStatus, LoanType, PaymentFrequency, FundingAccessMode, InterestPaymentType,
  PrincipalPaymentType, is_active, to_seconds,
}

-- The 32 bytes of a key, read as a number; `Pubkey::default()` is 0.
abbrev pub Pubkey : Type 0
Pubkey = ℕ

abbrev pub default_key : Pubkey
default_key = 0

abbrev pub current_account_version : ℕ
current_account_version = 1

pub record DebtContract : Type 0 where
  pub borrower : Pubkey
  pub contract_seed : ℕ
  pub target_amount : ℕ
  pub funded_amount : ℕ
  pub interest_rate : ℕ
  pub term_days : ℕ
  pub collateral_amount : ℕ
  pub loan_type : LoanType
  pub ltv_ratio : ℕ
  pub interest_payment_type : InterestPaymentType
  pub principal_payment_type : PrincipalPaymentType
  pub interest_frequency : PaymentFrequency
  pub principal_frequency : Option PaymentFrequency
  pub created_at : ℤ
  pub status : ContractStatus
  pub num_contributions : ℕ
  pub outstanding_balance : ℕ
  pub accrued_interest : ℕ
  pub last_interest_update : ℤ
  pub last_principal_payment : ℤ
  pub total_principal_paid : ℕ
  pub contributions : List Pubkey
  pub last_bot_update : ℤ
  pub next_interest_payment_due : ℤ
  pub next_principal_payment_due : ℤ
  pub bot_operation_count : ℕ
  pub max_lenders : ℕ
  pub partial_funding_flag : ℕ
  pub expires_at : ℤ
  pub allow_partial_fill : Bool
  pub min_partial_fill_bps : ℕ
  pub listing_fee_paid : ℕ
  pub funding_access_mode : FundingAccessMode
  pub has_active_proposal : Bool
  pub proposal_count : ℕ
  pub uncollectable_balance : ℕ
  pub total_prepayment_fees : ℕ
  pub account_version : ℕ
  pub contract_version : ℕ
  pub collateral_mint : Pubkey
  pub collateral_token_account : Pubkey
  pub collateral_value_at_creation : ℕ
  pub ltv_floor_bps : ℕ
  pub loan_mint : Pubkey
  pub loan_token_account : Pubkey
  pub recall_requested : Bool
  pub recall_requested_at : ℤ
  pub recall_requested_by : Pubkey
  pub is_revolving : Bool
  pub credit_limit : ℕ
  pub drawn_amount : ℕ
  pub available_amount : ℕ
  pub standby_fee_rate : ℕ
  pub accrued_standby_fees : ℕ
  pub last_standby_fee_update : ℤ
  pub total_draws : ℕ
  pub total_standby_fees_paid : ℕ
  pub revolving_closed : Bool
  pub frontend : Pubkey

-- `DebtContract::increment_proposal_count`, with the new count.
unfoldable pub increment_proposal_count : DebtContract → Result (ℕ × DebtContract)
increment_proposal_count c = do
  next ← ok_or (checked_add u64_max c.proposal_count 1) StendarError.arithmetic_overflow
  ok (next, record c { proposal_count = next })

-- `DebtContract::add_prepayment_fee`
unfoldable pub add_prepayment_fee : DebtContract → ℕ → Result DebtContract
add_prepayment_fee c amount = do
  total ←
      ok_or (checked_add u64_max c.total_prepayment_fees amount) StendarError.arithmetic_overflow
  ok (record c { total_prepayment_fees = total })

-- `DebtContract::calculate_next_interest_payment`
unfoldable pub calculate_next_interest_payment : DebtContract → ℤ
calculate_next_interest_payment c =
    if is_zero c.last_interest_update
    then saturating_i64 (c.created_at +ℤ to_seconds c.interest_frequency)
    else saturating_i64 (c.last_interest_update +ℤ to_seconds c.interest_frequency)

-- `DebtContract::calculate_next_principal_payment`
next_principal_payment : Option PaymentFrequency → DebtContract → ℤ
next_principal_payment none c = pos 0
next_principal_payment (some freq) c =
    if is_zero c.last_principal_payment
    then saturating_i64 (c.created_at +ℤ to_seconds freq)
    else saturating_i64 (c.last_principal_payment +ℤ to_seconds freq)

unfoldable pub calculate_next_principal_payment : DebtContract → ℤ
unfolding next_principal_payment
calculate_next_principal_payment c = next_principal_payment c.principal_frequency c

-- `DebtContract::determine_status_by_funding`
unfoldable pub determine_status_by_funding : DebtContract → ContractStatus
determine_status_by_funding c =
    if c.funded_amount == 0
    then ContractStatus.open_not_funded
    else if ltb c.funded_amount c.target_amount
    then ContractStatus.open_partially_funded
    else ContractStatus.active

-- `DebtContract::is_interest_payment_due`
unfoldable pub is_interest_payment_due : DebtContract → ℤ → Bool
is_interest_payment_due c current_time =
    is_active c.status && leb_ℤ c.next_interest_payment_due current_time

-- `DebtContract::is_principal_payment_due`
unfoldable pub is_principal_payment_due : DebtContract → ℤ → Bool
is_principal_payment_due c current_time =
    is_active c.status
    && (elim c.principal_frequency [ none ↦ false | some _ ↦ true ])
    && leb_ℤ c.next_principal_payment_due current_time

-- `DebtContract::update_bot_tracking`. The two due dates read only fields that the first two writes
-- leave alone.
unfoldable pub update_bot_tracking : DebtContract → ℤ → DebtContract
update_bot_tracking c current_time = record c {
  last_bot_update = current_time;
  bot_operation_count = saturating_add u64_max c.bot_operation_count 1;
  next_interest_payment_due = calculate_next_interest_payment c;
  next_principal_payment_due = calculate_next_principal_payment c;
}
