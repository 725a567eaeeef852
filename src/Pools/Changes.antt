-- ===== src/Pools/Changes.antt =====
-- The life of a pool (programs/stendar/src/instructions/pools.rs): its creation, the changes that
-- its operator proposes and applies after a time lock, pausing, resuming and closing. What Anchor
-- does on `close` and `init` is the account's end and beginning: a closed account is `none`.
pub mod Timelock
use stendar_l.Base.{
  ℕ, ◌+◌, ◌&&◌, ◌||◌, not, Bool, true, false, Option, none, some, ltb, leb, ◌==◌, if◌then◌else◌,
}
use stendar_l.Base.Int.{ℤ, pos, ◌+ℤ◌, leb_ℤ, ltb_ℤ}
use stendar_l.Base.Word.{checked_i64}
use stendar_l.Error.{StendarError, Result, ok, err, ◌>>=◌, ◌>>◌, require, ok_or}
use stendar_l.State.Enums.{PoolStatus}
use stendar_l.State.Contract.{Pubkey, current_account_version}
use stendar_l.State.Accounts.{PlatformState}
use stendar_l.State.Pools.{PoolState, RateHistoryEntry, initialize_rate_history, push_rate_history}
use stendar_l.Utils.Scale.{require_current_version}
use stendar_l.Ledger.{Ledger}
use stendar_l.Pools.{current_rate_start}
use stendar_l.Pools.Call.{require_pool_active}
use stendar_l.Pools.Withdraw.{is_paused_pool}

abbrev pub pool_change_timelock_seconds : ℤ
pool_change_timelock_seconds = pos 259_200

abbrev pub pool_idle_expiry_seconds : ℤ
pool_idle_expiry_seconds = pos 2_592_000

-- What an operator may change, each if it is given.
pub record PoolTerms : Type 0 where
  pub rate_bps : Option ℕ
  pub capacity : Option ℕ
  pub minimum_deposit : Option ℕ
  pub allowed_loan_type : Option ℕ
  pub min_ltv_bps : Option ℕ
  pub max_term_days : Option ℕ
  pub withdrawal_queue_enabled : Option Bool

-- `PendingPoolChange`
pub record PendingPoolChange : Type 0 where
  pub pool : Pubkey
  pub operator : Pubkey
  pub proposed_at : ℤ
  pub effective_at : ℤ
  pub terms : PoolTerms
  pub account_version : ℕ

-- `AuthorizedPoolOperator`
pub record AuthorizedPoolOperator : Type 0 where
  pub operator : Pubkey
  pub authorized_by : Pubkey
  pub authorized_at : ℤ
  pub account_version : ℕ

-- `AuthorizedPoolOperator::initialize`
unfoldable pub initialize_operator : Pubkey → Pubkey → ℤ → AuthorizedPoolOperator
initialize_operator operator authorized_by authorized_at = record {
  operator = operator;
  authorized_by = authorized_by;
  authorized_at = authorized_at;
  account_version = current_account_version;
}

-- `authorize_pool_operator`: the platform's authority signs.
unfoldable pub authorize_pool_operator :
    PlatformState → Pubkey → Pubkey → ℤ → Result AuthorizedPoolOperator
unfolding initialize_operator
authorize_pool_operator state authority operator now = do
  require (state.authority == authority) StendarError.invalid_authority
  require_current_version state.account_version
  ok (initialize_operator operator authority now)

-- What a pool's creation takes, its name aside.
pub record NewPool : Type 0 where
  pub pool_seed : ℕ
  pub rate_bps : ℕ
  pub capacity : ℕ
  pub minimum_deposit : ℕ
  pub withdrawal_queue_enabled : Bool
  pub allowed_loan_type : ℕ
  pub min_ltv_bps : ℕ
  pub max_term_days : ℕ

-- The account of the pool with the fields that `create_pool` writes.
unfoldable pub new_pool : NewPool → (operator usdc_mint pool_vault : Pubkey) → ℤ → PoolState
unfolding initialize_rate_history
new_pool n operator usdc_mint pool_vault now = initialize_rate_history (record {
  operator = operator;
  pool_seed = n.pool_seed;
  rate_bps = n.rate_bps;
  capacity = n.capacity;
  current_total_deposits = 0;
  current_utilized = 0;
  total_yield_distributed = 0;
  status = PoolStatus.active;
  created_at = now;
  authorized = true;
  withdrawal_queue_enabled = n.withdrawal_queue_enabled;
  minimum_deposit = n.minimum_deposit;
  num_depositors = 0;
  loan_mint = usdc_mint;
  vault_token_account = pool_vault;
  allowed_loan_type = n.allowed_loan_type;
  min_ltv_bps = n.min_ltv_bps;
  max_term_days = n.max_term_days;
  rate_updated_at = pos 0;
  prev_rate_bps = 0;
  idle_since = now;
  total_pending_yield = 0;
  pending_withdrawal_requests = 0;
  rate_history_len = 0;
  rate_history_head = 0;
  rate_history = λ slot. record { changed_at = pos 0; rate_bps = 0 };
  account_version = current_account_version;
})

-- `create_pool`
unfoldable pub create_pool :
    PlatformState
    → AuthorizedPoolOperator
    → NewPool
    → (operator usdc_mint pool_vault : Pubkey) → ℤ
    → Result PoolState
unfolding new_pool
create_pool state operator_auth n operator usdc_mint pool_vault now = do
  require (operator_auth.operator == operator) StendarError.pool_operator_not_authorized
  require_current_version state.account_version
  require_current_version operator_auth.account_version
  require (leb n.rate_bps 10_000) StendarError.invalid_payment_amount
  require (leb n.allowed_loan_type 2) StendarError.invalid_proposed_terms
  ok (new_pool n operator usdc_mint pool_vault now)

abbrev pub is_given {ℓ} : {A : Type ℓ} → Option A → Bool
is_given none = false
is_given (some a) = true

-- Is a value that is given at most a bound?
abbrev pub given_le : Option ℕ → ℕ → Bool
given_le none bound = true
given_le (some value) bound = leb value bound

abbrev any_given : PoolTerms → Bool
any_given t =
    is_given t.rate_bps
    || is_given t.capacity
    || is_given t.minimum_deposit
    || is_given t.allowed_loan_type
    || is_given t.min_ltv_bps
    || is_given t.max_term_days
    || is_given t.withdrawal_queue_enabled

-- `propose_pool_changes`
unfoldable pub propose_pool_changes :
    PoolState → (pool_key signer : Pubkey) → PoolTerms → ℤ → Result PendingPoolChange
unfolding require_pool_active
propose_pool_changes p pool_key signer t proposed_at = do
  require (p.operator == signer) StendarError.invalid_pool_operator
  require_current_version p.account_version
  require_pool_active p
  require (any_given t) StendarError.no_changes_proposed
  require (given_le t.rate_bps 10_000) StendarError.invalid_payment_amount
  require (given_le t.allowed_loan_type 2) StendarError.invalid_proposed_terms
  effective_at ←
      ok_or (checked_i64 (proposed_at +ℤ pool_change_timelock_seconds))
        StendarError.arithmetic_overflow
  ok (record {
    pool = pool_key;
    operator = signer;
    proposed_at = proposed_at;
    effective_at = effective_at;
    terms = t;
    account_version = current_account_version;
  })

-- Does a change turn the queue off?
abbrev turns_off : Option Bool → Bool
turns_off none = false
turns_off (some enabled) = not enabled

-- A capacity that is given may not lie below the deposits.
abbrev pub covers_deposits : Option ℕ → ℕ → Bool
covers_deposits none total = true
covers_deposits (some value) total = leb total value

-- `validate_pool_change_compatibility`, less the log line.
unfoldable pub validate_pool_change_compatibility : PoolState → PoolTerms → Result (Unit {0})
validate_pool_change_compatibility p t = do
  require (covers_deposits t.capacity p.current_total_deposits)
      StendarError.pool_capacity_below_deposits
  require (not (turns_off t.withdrawal_queue_enabled) || p.pending_withdrawal_requests == 0)
      StendarError.pool_has_pending_withdrawals

abbrev pub or_old {ℓ} : {A : Type ℓ} → Option A → A → A
or_old none old = old
or_old (some value) old = value

-- A new rate takes effect, and the one before it enters the history.
unfoldable pub apply_rate : PoolState → Option ℕ → ℤ → PoolState
unfolding push_rate_history current_rate_start
apply_rate p none now = p
apply_rate p (some rate) now =
    record (push_rate_history p
      (record { changed_at = current_rate_start p; rate_bps = p.rate_bps })) {
        prev_rate_bps = p.rate_bps;
        rate_bps = rate;
        rate_updated_at = now;
      }

unfoldable pub apply_terms : PoolState → PoolTerms → ℤ → PoolState
unfolding apply_rate
apply_terms p t now =
    let p' = apply_rate p t.rate_bps now in
    record p' {
      capacity = or_old t.capacity p'.capacity;
      minimum_deposit = or_old t.minimum_deposit p'.minimum_deposit;
      allowed_loan_type = or_old t.allowed_loan_type p'.allowed_loan_type;
      min_ltv_bps = or_old t.min_ltv_bps p'.min_ltv_bps;
      max_term_days = or_old t.max_term_days p'.max_term_days;
      withdrawal_queue_enabled = or_old t.withdrawal_queue_enabled p'.withdrawal_queue_enabled;
    }

-- `apply_pool_changes`; the pending change is closed by it.
unfoldable pub apply_pool_changes :
    PoolState
    → PendingPoolChange
    → (pool_key signer : Pubkey) → ℤ
    → Result (PoolState × Option PendingPoolChange)
unfolding validate_pool_change_compatibility apply_terms
apply_pool_changes p pending pool_key signer now = do
  require (p.operator == signer) StendarError.invalid_pool_operator
  require (pending.pool == pool_key) StendarError.invalid_contract_reference
  require (pending.operator == signer) StendarError.invalid_pool_operator
  require_current_version p.account_version
  require_current_version pending.account_version
  require (leb_ℤ pending.effective_at now) StendarError.timelock_not_expired
  validate_pool_change_compatibility p pending.terms
  ok (apply_terms p pending.terms now, none)

-- `cancel_pool_changes`
unfoldable pub cancel_pool_changes : PendingPoolChange → Pubkey → Result (Option PendingPoolChange)
cancel_pool_changes pending signer = do
  require (pending.operator == signer) StendarError.invalid_pool_operator
  require_current_version pending.account_version
  ok none

-- `pause_pool`
unfoldable pub pause_pool : PoolState → Pubkey → Result PoolState
unfolding require_pool_active
pause_pool p signer = do
  require (p.operator == signer) StendarError.invalid_pool_operator
  require_current_version p.account_version
  require_pool_active p
  ok (record p { status = PoolStatus.paused })

-- `resume_pool`
unfoldable pub resume_pool : PoolState → Pubkey → Result PoolState
resume_pool p signer = do
  require (p.operator == signer) StendarError.invalid_pool_operator
  require_current_version p.account_version
  require (is_paused_pool p.status) StendarError.pool_not_active
  ok (record p { status = PoolStatus.active })

-- `close_pool`, with the state that its account holds before it is closed.
unfoldable pub close_pool : PoolState → Pubkey → Result PoolState
close_pool p signer = do
  require (p.operator == signer) StendarError.invalid_pool_operator
  require (p.current_total_deposits == 0) StendarError.pool_not_empty
  require (p.current_utilized == 0) StendarError.pool_utilization_not_zero
  require_current_version p.account_version
  ok (record p { status = PoolStatus.closed })

-- `expire_idle_pool`, with the state that its account holds before it is closed: what the bot may do
-- when a pool was empty for long.
unfoldable pub expire_idle_pool :
    PoolState
    → Ledger
    → (bot_authority signer operator_receiver pool_vault : Pubkey) → ℤ
    → Result PoolState
expire_idle_pool p tokens bot_authority signer operator_receiver pool_vault now = do
  require (bot_authority == signer) StendarError.unauthorized_bot_operation
  require (operator_receiver == p.operator) StendarError.invalid_pool_operator
  require (pool_vault == p.vault_token_account) StendarError.token_account_mismatch
  require_current_version p.account_version
  require (p.current_utilized == 0) StendarError.pool_utilization_not_zero
  require (p.current_total_deposits == 0) StendarError.pool_not_empty
  require (ltb_ℤ (pos 0) p.idle_since) StendarError.pool_not_idle
  expiry_ts ←
      ok_or (checked_i64 (p.idle_since +ℤ pool_idle_expiry_seconds))
        StendarError.arithmetic_overflow
  require (leb_ℤ expiry_ts now) StendarError.pool_not_idle
  require ((tokens pool_vault).amount == 0) StendarError.pool_not_empty
  ok (record p { status = PoolStatus.closed })
