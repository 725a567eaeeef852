-- ===== src/Pools/Withdraw.antt =====
-- The instructions by which principal leaves a pool (programs/stendar/src/instructions/pools.rs):
-- `withdraw_from_pool`, `request_pool_withdrawal`, `process_pool_withdrawal` and
-- `operator_return_deposit`.
pub mod Effect
pub mod Others
pub mod Exits
use stendar_l.Base.{ℕ, Bool, true, false, ◌&&◌, ◌||◌, min, not, ltb, leb, ◌==◌, if◌then◌else◌}
use stendar_l.Error.{StendarError, Result, ok, err, ◌>>=◌, ◌>>◌, require, ok_or}
use stendar_l.Base.Word.{checked_sub}
use stendar_l.State.Enums.{PoolStatus}
use stendar_l.State.Pools.{PoolState, PoolDeposit, available_liquidity}
use stendar_l.Utils.Scale.{require_current_version}
use stendar_l.Ledger.{Runtime}
use stendar_l.Pools.{accrue_deposit_yield}
use stendar_l.Pools.Call.{
  Holding, PoolCall, refresh_pool_idle_since, clear_withdrawal_request, queue_withdrawal_request,
  require_own_deposit, require_vault_key, require_pool_token,
}

-- The tests on the two token accounts of a withdrawal.
unfoldable pub require_withdrawal_accounts : PoolCall → Holding → Result (Unit {0})
unfolding require_pool_token
require_withdrawal_accounts c h = do
  require_pool_token h c.pool_vault c.pool_key
  require_pool_token h c.depositor_usdc_ata c.depositor

-- The constraints that `WithdrawFromPool`, `ProcessPoolWithdrawal` and `OperatorReturnDeposit` share.
unfoldable pub require_withdrawal_constraints : PoolCall → Holding → Result (Unit {0})
unfolding require_vault_key
require_withdrawal_constraints c h = do
  require (h.deposit.depositor == c.depositor) StendarError.unauthorized_claim
  require_vault_key c h.pool
  require ((h.tokens c.depositor_usdc_ata).owner == c.depositor) StendarError.token_account_mismatch

-- The end of the three instructions, after the transfer: the deposit and the pool's total shrink by
-- the amount, a request is cleared, and an emptied deposit leaves the count of depositors.
unfoldable pub record_withdrawal :
    PoolState → PoolDeposit → ℕ → PoolCall → Result (PoolState × PoolDeposit)
unfolding refresh_pool_idle_since clear_withdrawal_request
record_withdrawal p d amount c = do
  left ← ok_or (checked_sub d.deposit_amount amount) StendarError.arithmetic_overflow
  total ← ok_or (checked_sub p.current_total_deposits amount) StendarError.arithmetic_overflow
  cleared ←
      clear_withdrawal_request
        (refresh_pool_idle_since (record p { current_total_deposits = total }) c.now)
        (record d { deposit_amount = left })
  depositors ←
      if ltb 0 d.deposit_amount && left == 0
      then ok_or (checked_sub cleared.0.num_depositors 1) StendarError.arithmetic_overflow
      else ok cleared.0.num_depositors
  ok (record cleared.0 { num_depositors = depositors }, cleared.1)

-- The transfer from the vault to the depositor, which the pool signs for, and the record of it.
unfoldable pub pay_out : Runtime → PoolCall → Holding → ℕ → Result Holding
unfolding record_withdrawal
pay_out r c h amount = do
  tokens ← r.transfer h.tokens c.pool_vault c.depositor_usdc_ata c.pool_key amount
  recorded ← record_withdrawal h.pool h.deposit amount c
  ok (record h { pool = recorded.0; deposit = recorded.1; tokens = tokens })

-- `accrue_deposit_yield(pool, pool_deposit, now)?` on the accounts of a call.
unfoldable pub accrue : PoolCall → Holding → Result Holding
accrue c h = do
  accrued ← accrue_deposit_yield h.pool h.deposit c.now
  ok (record h { pool = accrued.1; deposit = accrued.2 })

-- `withdraw_from_pool` up to the accrual.
unfoldable pub may_withdraw : PoolCall → Holding → ℕ → Result (Unit {0})
unfolding require_withdrawal_constraints require_own_deposit require_withdrawal_accounts
may_withdraw c h amount = do
  require_withdrawal_constraints c h
  require (ltb 0 amount) StendarError.invalid_contribution_amount
  require_current_version h.pool.account_version
  require_current_version h.deposit.account_version
  require_own_deposit c h.deposit
  require (leb amount h.deposit.deposit_amount) StendarError.invalid_contribution_amount
  require_withdrawal_accounts c h

-- `queue_withdrawal_request(pool, pool_deposit, amount, now)?` on the accounts of a call.
unfoldable pub queue_withdrawal : PoolCall → Holding → ℕ → Result Holding
unfolding queue_withdrawal_request
queue_withdrawal c h amount = do
  queued ← queue_withdrawal_request h.pool h.deposit amount c.now
  ok (record h { pool = queued.0; deposit = queued.1 })

-- What `withdraw_from_pool` does with an amount that the pool has not free.
unfoldable pub queue_or_refuse : PoolCall → Holding → ℕ → Result Holding
unfolding queue_withdrawal
queue_or_refuse c h amount =
    if h.pool.withdrawal_queue_enabled
    then queue_withdrawal c h amount
    else err StendarError.insufficient_pool_liquidity

-- `withdraw_from_pool` after the accrual.
unfoldable pub settle_withdrawal : Runtime → PoolCall → Holding → ℕ → Result Holding
unfolding pay_out queue_or_refuse available_liquidity
settle_withdrawal r c h amount = do
  liquidity ← available_liquidity h.pool
  if ltb liquidity amount then queue_or_refuse c h amount else (do
    require (leb amount (h.tokens c.pool_vault).amount) StendarError.insufficient_pool_liquidity
    pay_out r c h amount)

-- `withdraw_from_pool`
unfoldable pub withdraw_from_pool : Runtime → PoolCall → Holding → ℕ → Result Holding
unfolding may_withdraw accrue settle_withdrawal
withdraw_from_pool r c h amount = do
  may_withdraw c h amount
  accrued ← accrue c h
  settle_withdrawal r c accrued amount

-- `request_pool_withdrawal`
unfoldable pub request_pool_withdrawal : PoolCall → Holding → ℕ → Result Holding
unfolding require_own_deposit queue_withdrawal
request_pool_withdrawal c h amount = do
  require (h.deposit.depositor == c.depositor) StendarError.unauthorized_claim
  require (ltb 0 amount) StendarError.invalid_contribution_amount
  require_current_version h.pool.account_version
  require_current_version h.deposit.account_version
  require_own_deposit c h.deposit
  require (leb amount h.deposit.deposit_amount) StendarError.invalid_contribution_amount
  require (not h.deposit.withdrawal_requested) StendarError.pool_withdrawal_already_queued
  require h.pool.withdrawal_queue_enabled StendarError.pool_withdrawal_queue_disabled
  queue_withdrawal c h amount

-- The operator or the bot may process what is queued.
unfoldable pub may_process : PoolCall → Holding → Result (Unit {0})
unfolding require_withdrawal_constraints require_own_deposit require_withdrawal_accounts
may_process c h = do
  require (h.pool.operator == c.signer || h.treasury.bot_authority == c.signer)
      StendarError.unauthorized_bot_operation
  require_withdrawal_constraints c h
  require_current_version h.pool.account_version
  require_current_version h.deposit.account_version
  require_own_deposit c h.deposit
  require h.deposit.withdrawal_requested StendarError.pool_withdrawal_not_queued
  require (ltb 0 h.deposit.withdrawal_requested_amount) StendarError.pool_withdrawal_not_queued
  require (leb h.deposit.withdrawal_requested_amount h.deposit.deposit_amount)
      StendarError.invalid_contribution_amount
  require_withdrawal_accounts c h

-- What the pool has free and the vault holds covers the amount.
unfoldable pub require_liquidity : PoolCall → Holding → ℕ → Result (Unit {0})
unfolding available_liquidity
require_liquidity c h amount = do
  liquidity ← available_liquidity h.pool
  require (leb amount liquidity) StendarError.insufficient_pool_liquidity
  require (leb amount (h.tokens c.pool_vault).amount) StendarError.insufficient_pool_liquidity

-- `process_pool_withdrawal`
unfoldable pub process_pool_withdrawal : Runtime → PoolCall → Holding → Result Holding
unfolding may_process accrue require_liquidity pay_out
process_pool_withdrawal r c h = do
  may_process c h
  accrued ← accrue c h
  require_liquidity c accrued h.deposit.withdrawal_requested_amount
  pay_out r c accrued h.deposit.withdrawal_requested_amount

abbrev pub is_paused_pool : PoolStatus → Bool
is_paused_pool PoolStatus.paused = true
is_paused_pool PoolStatus.active = false
is_paused_pool PoolStatus.closed = false

unfoldable pub may_return : PoolCall → Holding → Result (Unit {0})
unfolding require_withdrawal_constraints require_own_deposit require_withdrawal_accounts
may_return c h = do
  require (h.pool.operator == c.signer) StendarError.invalid_pool_operator
  require (h.deposit.pool == c.pool_key) StendarError.unauthorized_claim
  require_withdrawal_constraints c h
  require_current_version h.pool.account_version
  require (is_paused_pool h.pool.status) StendarError.pool_not_paused_for_return
  require_current_version h.deposit.account_version
  require_own_deposit c h.deposit
  require (ltb 0 h.deposit.deposit_amount) StendarError.invalid_contribution_amount
  require_withdrawal_accounts c h

-- What an operator may return of a deposit: as much as is free and in the vault.
unfoldable pub returnable_amount : PoolCall → Holding → Result ℕ
unfolding available_liquidity
returnable_amount c h = do
  liquidity ← available_liquidity h.pool
  ok (min (min h.deposit.deposit_amount liquidity) (h.tokens c.pool_vault).amount)

-- `operator_return_deposit`
unfoldable pub operator_return_deposit : Runtime → PoolCall → Holding → Result Holding
unfolding may_return accrue returnable_amount pay_out
operator_return_deposit r c h = do
  may_return c h
  accrued ← accrue c h
  amount ← returnable_amount c accrued
  require (ltb 0 amount) StendarError.insufficient_pool_liquidity
  pay_out r c accrued amount
