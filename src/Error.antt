-- ===== src/Error.antt =====
-- `StendarError` of programs/stendar/src/errors.rs, and the result of a fallible instruction. An
-- error aborts the transaction, so it carries no state: what was written is rolled back.
use stendar_l.Base.{if◌then◌else◌}
use mathlib.Core.Path.{◌≡◌, refl}
use mathlib.Core.Logic.{◌⊎◌, inl, inr}
use mathlib.Core.Bool.{Bool}
use mathlib.Core.Option.{Option, none, some}

pub data StendarError : Type 0 where
  contract_not_open contract_not_funded contract_not_cancelled : StendarError
  contract_not_expired contract_not_in_default invalid_contribution_amount : StendarError
  max_lenders_reached last_lender_must_fill_remaining partial_funding_disabled : StendarError
  partial_fill_not_allowed below_minimum_fill_threshold invalid_max_lenders : StendarError
  invalid_payment_amount invalid_interest_rate invalid_standby_fee_rate : StendarError
  revolving_not_enabled revolving_facility_closed draw_exceeds_available : StendarError
  insufficient_contract_balance revolving_ltv_breach : StendarError
  revolving_principal_payment_not_allowed revolving_payment_must_use_repay : StendarError
  past_maturity fee_too_high exceeds_target_amount unauthorized_cancellation : StendarError
  cannot_cancel_contract already_refunded invalid_contribution excessive_payment : StendarError
  unauthorized_payment lender_not_approved funder_already_approved : StendarError
  invalid_approved_funder_account self_funding_not_allowed : StendarError
  self_liquidation_not_allowed recall_not_allowed not_demand_loan : StendarError
  recall_already_pending no_recall_pending recall_grace_period_not_elapsed : StendarError
  recall_grace_period_elapsed unauthorized_claim payment_not_required : StendarError
  no_payment_due payment_not_due unauthorized_withdrawal invalid_withdrawal_amount : StendarError
  insufficient_treasury_balance invalid_authority unauthorized_authority_update : StendarError
  unauthorized_bot_operation platform_paused unauthorized_listing : StendarError
  contract_not_active inactive_listing unauthorized_acceptance invalid_offer : StendarError
  inactive_offer unauthorized_transfer listing_amount_too_small : StendarError
  invalid_trade_amount insufficient_funds trade_offer_expired : StendarError
  trade_listing_expired listing_not_expired position_not_tradeable : StendarError
  invalid_position_valuation invalid_trade_price invalid_contract_reference : StendarError
  arithmetic_overflow oracle_price_stale oracle_price_negative : StendarError
  oracle_price_unavailable oracle_calculation_overflow invalid_recipient : StendarError
  operations_fund_insufficient operations_fund_inactive account_needs_migration : StendarError
  collateral_registry_full collateral_type_already_exists : StendarError
  collateral_type_not_found collateral_type_not_approved collateral_type_inactive : StendarError
  insufficient_collateral ltv_floor_below_minimum demand_loan_floor_too_low : StendarError
  oracle_price_feed_mismatch invalid_liquidation_buffer invalid_min_floor : StendarError
  decimals_mismatch missing_token_accounts invalid_usdc_mint invalid_mint : StendarError
  token_account_mismatch invalid_contract_version position_healthy : StendarError
  insufficient_collateral_for_liquidation proposal_already_active : StendarError
  proposer_on_cooldown proposal_not_pending proposal_expired proposal_not_expired : StendarError
  already_voted not_contract_participant no_term_changes invalid_proposed_terms : StendarError
  unauthorized_proposal_cancel proposer_cannot_vote missing_contribution_accounts : StendarError
  invalid_proposal_id invalid_proposal_participants : StendarError
  recall_pledge_not_allowed_for_committed_loans recall_pledge_lender_only : StendarError
  proposal_recall_grace_not_elapsed no_recall_pledge_on_vote : StendarError
  proposal_not_rejected_or_expired withdrawal_cooldown_not_elapsed : StendarError
  contract_not_open_for_withdrawal escrow_not_empty pool_operator_not_authorized : StendarError
  pool_not_active pool_paused pool_capacity_below_deposits pool_capacity_exceeded : StendarError
  insufficient_pool_liquidity pool_deposit_below_minimum pool_not_empty : StendarError
  pool_withdrawal_already_queued pool_withdrawal_not_queued : StendarError
  pool_has_pending_withdrawals invalid_pool_operator pool_utilization_not_zero : StendarError
  pool_not_idle rate_change_too_frequent timelock_not_expired no_changes_proposed : StendarError
  pool_loan_type_mismatch pool_deployment_rule_violation : StendarError
  pool_not_paused_for_return already_migrated frontend_token_account_mismatch : StendarError
  invalid_yield_preference yield_preference_mismatch invariant_violation : StendarError
  contract_not_eligible_for_liquidation proposal_recalls_pending : StendarError
  pool_withdrawal_queue_disabled : StendarError
  -- What a program that this one calls reports: the token program, the system program.
  external : StendarError

pub data Result {ℓ} (A : Type ℓ) : Type ℓ where
  ok : A → Result A
  err : StendarError → Result A

-- `option.ok_or(error)?`
abbrev pub ok_or {ℓ} : {A : Type ℓ} → Option A → StendarError → Result A
ok_or none code = err code
ok_or (some a) code = ok a

-- `require!(test, error)`
abbrev pub require : Bool → StendarError → Result (Unit {0})
require holds code = if holds then ok tt else err code

-- `?`: the rest runs on a value, and an error is returned at once.
infixl 5 ◌>>=◌
abbrev pub ◌>>=◌ {κ ℓ} : {X : Type ℓ} {Y : Type κ} → Result X → (X → Result Y) → Result Y
err code >>= rest = err code
ok x >>= rest = rest x

infixl 5 ◌>>◌
abbrev pub ◌>>◌ {κ} : {Y : Type κ} → Result (Unit {0}) → Result Y → Result Y
test >> rest = test >>= λ passed. rest

-- To split on a computed result and keep the equation.
pub Result-cases {ℓ} :
    {A : Type ℓ} (m : Result A) → ((a : A) × (m ≡ ok a)) ⊎ ((e : StendarError) × (m ≡ err e))
Result-cases (ok a) = inl (a, refl)
Result-cases (err e) = inr (e, refl)

-- What ran before a chain's value was computed.
pub >>=-eq-ok {κ ℓ} :
    {X : Type ℓ} {Y : Type κ} (first : Result X) (rest : X → Result Y) {y : Y}
    → (first >>= rest) ≡ ok y
    → (x : X) × (first ≡ ok x) × (rest x ≡ ok y)
>>=-eq-ok (err code) rest h = cc
>>=-eq-ok (ok x) rest h = (x, refl, h)
