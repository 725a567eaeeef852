-- ===== src/Pools/Call.antt =====
-- The accounts of an instruction on a pool and one deposit of it, and the tests and helpers that the
-- instructions of programs/stendar/src/instructions/pools.rs share. The `seeds` constraints of
-- contexts/pools.rs choose the global state, the treasury and the deposit's account, so these are
-- the accounts at their addresses; a signer is a key.
use stendar_l.Base.{ℕ, true, false, not, ◌&&◌, Option, ltb, ◌==◌, if◌then◌else◌}
use stendar_l.Base.Int.{ℤ, pos, is_zero}
use stendar_l.Error.{StendarError, Result, ok, err, ◌>>=◌, ◌>>◌, require}
use stendar_l.State.Enums.{PoolStatus}
use stendar_l.State.Contract.{Pubkey, default_key}
use stendar_l.State.Accounts.{PlatformState}
use stendar_l.State.Treasury.{Treasury}
use stendar_l.State.Pools.{
  PoolState, PoolDeposit, increment_pending_withdrawal_requests,
  decrement_pending_withdrawal_requests,
}
use stendar_l.Ledger.{Ledger}

-- What an instruction writes: a pool, one deposit of it, the treasury and the token accounts.
pub record Holding : Type 0 where
  pub pool : PoolState
  pub deposit : PoolDeposit
  pub treasury : Treasury
  pub tokens : Ledger

-- What it only reads: who signs, which depositor is concerned, the keys of the accounts, and the
-- clock.
pub record PoolCall : Type 0 where
  pub signer : Pubkey
  pub depositor : Pubkey
  pub pool_key : Pubkey
  pub state : PlatformState
  pub treasury_key : Pubkey
  pub pool_vault : Pubkey
  pub depositor_usdc_ata : Pubkey
  pub treasury_usdc_account : Pubkey
  pub frontend_operator : Option Pubkey
  pub frontend_usdc_ata : Option Pubkey
  pub now : ℤ

-- `require_pool_active`
unfoldable pub require_pool_active : PoolState → Result (Unit {0})
require_pool_active p = elim p.status [
  | PoolStatus.active ↦ ok tt
  | PoolStatus.paused ↦ err StendarError.pool_paused
  | PoolStatus.closed ↦ err StendarError.pool_not_active
]

-- `refresh_pool_idle_since`
unfoldable pub refresh_pool_idle_since : PoolState → ℤ → PoolState
refresh_pool_idle_since p now =
    if p.current_total_deposits == 0 && p.current_utilized == 0
    then (if is_zero p.idle_since then record p { idle_since = now } else p)
    else record p { idle_since = pos 0 }

-- `clear_withdrawal_request`
unfoldable pub clear_withdrawal_request : PoolState → PoolDeposit → Result (PoolState × PoolDeposit)
unfolding decrement_pending_withdrawal_requests
clear_withdrawal_request p d = do
  p' ←
      if d.withdrawal_requested && ltb 0 p.pending_withdrawal_requests
      then decrement_pending_withdrawal_requests p
      else ok p
  ok (
    p',
    record d {
      withdrawal_requested = false;
      withdrawal_requested_at = pos 0;
      withdrawal_requested_amount = 0;
    },
  )

-- `queue_withdrawal_request`
unfoldable pub queue_withdrawal_request :
    PoolState → PoolDeposit → ℕ → ℤ → Result (PoolState × PoolDeposit)
unfolding increment_pending_withdrawal_requests
queue_withdrawal_request p d amount now = do
  require (not d.withdrawal_requested) StendarError.pool_withdrawal_already_queued
  p' ← increment_pending_withdrawal_requests p
  ok (
    p',
    record d {
      withdrawal_requested = true;
      withdrawal_requested_at = now;
      withdrawal_requested_amount = amount;
    },
  )

-- `pool_deposit.depositor == depositor_key && pool_deposit.pool == pool_key`, which the constraint
-- on the depositor precedes with the same error.
unfoldable pub require_own_deposit : PoolCall → PoolDeposit → Result (Unit {0})
require_own_deposit c d =
    require (d.depositor == c.depositor && d.pool == c.pool_key) StendarError.unauthorized_claim

-- `pool_vault.key() == pool.vault_token_account`
unfoldable pub require_vault_key : PoolCall → PoolState → Result (Unit {0})
require_vault_key c p =
    require (c.pool_vault == p.vault_token_account) StendarError.token_account_mismatch

-- `account.owner == owner && account.mint == pool.loan_mint`
unfoldable pub require_pool_token : Holding → Pubkey → Pubkey → Result (Unit {0})
require_pool_token h k owner =
    require ((h.tokens k).owner == owner && (h.tokens k).mint == h.pool.loan_mint)
      StendarError.token_account_mismatch

-- The tests on the treasury's token account and mint.
unfoldable pub require_treasury_account : PoolCall → Holding → Result (Unit {0})
unfolding require_pool_token
require_treasury_account c h = do
  require_pool_token h c.treasury_usdc_account c.treasury_key
  require (not (h.treasury.usdc_mint == default_key)) StendarError.invalid_mint
  require (h.treasury.usdc_mint == h.pool.loan_mint) StendarError.invalid_usdc_mint
  require (c.treasury_usdc_account == h.treasury.treasury_usdc_account)
      StendarError.token_account_mismatch
