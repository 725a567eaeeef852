-- ===== src/Pools/Deposit.antt =====
-- `deposit_to_pool` of programs/stendar/src/instructions/pools.rs.
pub mod Steps
pub mod Effect
use stendar_l.Base.{ℕ, ◌+◌, not, Option, none, some, ltb, leb, ◌==◌, ◌&&◌, if◌then◌else◌, false}
use stendar_l.Base.Int.{ℤ, pos}
use stendar_l.Base.Word.{u32_max, u64_max, checked_add, checked_sub}
use stendar_l.Error.{StendarError, Result, ok, ◌>>=◌, ◌>>◌, require, ok_or}
use stendar_l.State.Contract.{Pubkey, default_key}
use stendar_l.State.Pools.{PoolState, PoolDeposit}
use stendar_l.Utils.Scale.{require_current_version}
use stendar_l.State.Contract.{current_account_version}
use stendar_l.Utils.Fees.{calculate_fee_tenths_bps}
use stendar_l.Ledger.{Runtime}
use stendar_l.Pools.Call.{
  Holding, PoolCall, require_pool_active, refresh_pool_idle_since, clear_withdrawal_request,
  require_own_deposit, require_vault_key, require_pool_token, require_treasury_account,
}
use stendar_l.Pools.Fees.{collect_fee}
use stendar_l.Pools.Withdraw.{accrue}

-- `PoolDeposit::initialize`
unfoldable pub initialize : Pubkey → Pubkey → ℤ → PoolDeposit
initialize depositor pool now = record {
  depositor = depositor;
  pool = pool;
  deposit_amount = 0;
  accrued_yield = 0;
  last_yield_update = now;
  deposit_timestamp = now;
  withdrawal_requested = false;
  withdrawal_requested_at = pos 0;
  withdrawal_requested_amount = 0;
  total_yield_claimed = 0;
  frontend = default_key;
  yield_preference = 0;
  total_yield_compounded = 0;
  deferred_yield = 0;
  account_version = current_account_version;
}

-- The tests before the deposit is read.
unfoldable pub may_deposit : PoolCall → Holding → ℕ → Result (Unit {0})
unfolding require_vault_key require_pool_active
may_deposit c h amount = do
  require_vault_key c h.pool
  require ((h.tokens c.depositor_usdc_ata).owner == c.depositor) StendarError.token_account_mismatch
  require (ltb 0 amount) StendarError.invalid_contribution_amount
  require_current_version c.state.account_version
  require (not c.state.is_paused) StendarError.platform_paused
  require_current_version h.treasury.account_version
  require_current_version h.pool.account_version
  require_pool_active h.pool
  require h.pool.authorized StendarError.pool_operator_not_authorized
  require (leb h.pool.minimum_deposit amount) StendarError.pool_deposit_below_minimum

-- A deposit's account that is new is initialized; another one must be the depositor's.
unfoldable pub open_deposit : PoolCall → PoolDeposit → Result PoolDeposit
unfolding initialize require_own_deposit
open_deposit c d =
    if d.account_version == 0
    then ok (initialize c.depositor c.pool_key c.now)
    else (do require_current_version d.account_version; require_own_deposit c d; ok d)

unfoldable pub require_deposit_accounts : PoolCall → Holding → Result (Unit {0})
unfolding require_pool_token require_treasury_account require_vault_key
require_deposit_accounts c h = do
  require_pool_token h c.pool_vault c.pool_key
  require_pool_token h c.depositor_usdc_ata c.depositor
  require_treasury_account c h
  require_vault_key c h.pool

-- The capacity, if the pool has one, is not exceeded.
unfoldable pub require_capacity : PoolState → ℕ → Result (Unit {0})
require_capacity p net_deposit =
    if ltb 0 p.capacity
    then (do
      updated_total ←
          ok_or (checked_add u64_max p.current_total_deposits net_deposit)
            StendarError.arithmetic_overflow
      require (leb updated_total p.capacity) StendarError.pool_capacity_exceeded)
    else ok tt

-- A frontend that takes part is named by the deposit from then on.
unfoldable pub set_frontend : PoolCall → PoolDeposit → PoolDeposit
set_frontend c d = elim c.frontend_operator [
  | none ↦ d
  | some operator ↦ record d { frontend = operator }
]

-- The end of the instruction, after the transfers.
unfoldable pub record_deposit :
    PoolState → PoolDeposit → ℕ → PoolCall → Result (PoolState × PoolDeposit)
unfolding refresh_pool_idle_since clear_withdrawal_request
record_deposit p d net_deposit c = do
  total ←
      ok_or (checked_add u64_max p.current_total_deposits net_deposit)
        StendarError.arithmetic_overflow
  amount ← ok_or (checked_add u64_max d.deposit_amount net_deposit) StendarError.arithmetic_overflow
  let p' = refresh_pool_idle_since (record p { current_total_deposits = total }) c.now
  depositors ←
      if d.deposit_amount == 0
      then ok_or (checked_add u32_max p'.num_depositors 1) StendarError.arithmetic_overflow
      else ok p'.num_depositors
  clear_withdrawal_request (record p' { num_depositors = depositors })
      (record d {
        deposit_amount = amount;
        deposit_timestamp = if d.deposit_amount == 0 then c.now else d.deposit_timestamp;
      })

-- The transfers of the fee and of the rest, and the record of them.
unfoldable pub pay_in : Runtime → PoolCall → Holding → ℕ → ℕ → Result Holding
unfolding collect_fee record_deposit
pay_in r c h deposit_fee net_deposit = do
  paid ←
      collect_fee r h.tokens h.treasury c.depositor_usdc_ata c.depositor deposit_fee
        h.deposit.frontend h.pool.loan_mint c.treasury_usdc_account c.frontend_usdc_ata
  tokens ← r.transfer paid.1 c.depositor_usdc_ata c.pool_vault c.depositor net_deposit
  recorded ← record_deposit h.pool h.deposit net_deposit c
  ok (record { pool = recorded.0; deposit = recorded.1; treasury = paid.0; tokens = tokens })

-- `deposit_to_pool`
unfoldable pub deposit_to_pool : Runtime → PoolCall → Holding → ℕ → Result Holding
unfolding may_deposit open_deposit require_deposit_accounts require_capacity accrue set_frontend
    pay_in
deposit_to_pool r c h amount = do
  may_deposit c h amount
  opened ← open_deposit c h.deposit
  require_deposit_accounts c h
  deposit_fee ← calculate_fee_tenths_bps amount c.state.pool_deposit_fee_bps
  net_deposit ← ok_or (checked_sub amount deposit_fee) StendarError.arithmetic_overflow
  require_capacity h.pool net_deposit
  accrued ← accrue c (record h { deposit = opened })
  pay_in r c (record accrued { deposit = set_frontend c accrued.deposit }) deposit_fee net_deposit
