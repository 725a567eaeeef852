-- ===== src/Pools/Claim.antt =====
-- What becomes of a deposit's yield (programs/stendar/src/instructions/pools.rs):
-- `claim_pool_yield`, `bot_claim_pool_yield`, `compound_pool_yield` and `set_yield_preference`.
pub mod Steps
pub mod Effect
pub mod Compound
use stendar_l.Base.{ℕ, ◌+◌, not, ltb, leb, ◌==◌, ◌&&◌, ◌||◌, if◌then◌else◌}
use stendar_l.Base.Word.{u64_max, checked_add, checked_sub}
use stendar_l.Error.{StendarError, Result, ok, ◌>>=◌, ◌>>◌, require, ok_or}
use stendar_l.State.Pools.{PoolState, PoolDeposit, available_liquidity, consume_pending_yield}
use stendar_l.Utils.Scale.{require_current_version}
use stendar_l.Utils.Fees.{calculate_fee_tenths_bps}
use stendar_l.Ledger.{Ledger, Runtime}
use stendar_l.Pools.Call.{
  Holding, PoolCall, require_own_deposit, require_vault_key, require_pool_token,
  require_treasury_account,
}
use stendar_l.Pools.Fees.{collect_fee}
use stendar_l.Pools.Withdraw.{accrue, require_withdrawal_accounts, require_liquidity}

abbrev pub yield_preference_compound : ℕ
yield_preference_compound = 0

abbrev pub yield_preference_claim : ℕ
yield_preference_claim = 1

-- The tests on versions and on whose deposit it is.
unfoldable pub require_yield_accounts : PoolCall → Holding → Result (Unit {0})
unfolding require_own_deposit
require_yield_accounts c h = do
  require_current_version c.state.account_version
  require_current_version h.treasury.account_version
  require_current_version h.pool.account_version
  require_current_version h.deposit.account_version
  require_own_deposit c h.deposit

-- `claim_pool_yield` up to the accrual, its constraints first.
unfoldable pub may_claim : PoolCall → Holding → Result (Unit {0})
unfolding require_vault_key require_yield_accounts require_withdrawal_accounts
    require_treasury_account
may_claim c h = do
  require (h.deposit.depositor == c.depositor) StendarError.unauthorized_claim
  require_vault_key c h.pool
  require_yield_accounts c h
  require_withdrawal_accounts c h
  require_treasury_account c h

-- `bot_claim_pool_yield` up to the accrual.
unfoldable pub bot_may_claim : PoolCall → Holding → Result (Unit {0})
unfolding require_vault_key require_yield_accounts require_withdrawal_accounts
    require_treasury_account
bot_may_claim c h = do
  require (h.treasury.bot_authority == c.signer) StendarError.unauthorized_bot_operation
  require (h.deposit.depositor == c.depositor) StendarError.unauthorized_claim
  require_vault_key c h.pool
  require ((h.tokens c.depositor_usdc_ata).owner == c.depositor) StendarError.token_account_mismatch
  require_yield_accounts c h
  require (h.deposit.yield_preference == yield_preference_claim)
      StendarError.yield_preference_mismatch
  require_withdrawal_accounts c h
  require_treasury_account c h

-- The split of a yield into a fee and what is left of it.
unfoldable pub split_yield : PoolCall → ℕ → Result (ℕ × ℕ)
split_yield c yield_amount = do
  yield_fee ← calculate_fee_tenths_bps yield_amount c.state.pool_yield_fee_bps
  net_yield ← ok_or (checked_sub yield_amount yield_fee) StendarError.arithmetic_overflow
  ok (yield_fee, net_yield)

-- The books after a claim.
unfoldable pub record_claim :
    PoolState → PoolDeposit → (yield_amount net_yield : ℕ) → Result (PoolState × PoolDeposit)
unfolding consume_pending_yield
record_claim p d yield_amount net_yield = do
  claimed ←
      ok_or (checked_add u64_max d.total_yield_claimed net_yield) StendarError.arithmetic_overflow
  p' ← consume_pending_yield p yield_amount
  distributed ←
      ok_or (checked_add u64_max p'.total_yield_distributed net_yield)
        StendarError.arithmetic_overflow
  ok (
    record p' { total_yield_distributed = distributed },
    record d { accrued_yield = 0; total_yield_claimed = claimed },
  )

-- The fee of a yield, out of the vault.
unfoldable pub collect_yield_fee : Runtime → PoolCall → Holding → ℕ → Result Holding
unfolding collect_fee
collect_yield_fee r c h yield_fee = do
  paid ←
      collect_fee r h.tokens h.treasury c.pool_vault c.pool_key yield_fee h.deposit.frontend
        h.pool.loan_mint c.treasury_usdc_account c.frontend_usdc_ata
  ok (record h { treasury = paid.0; tokens = paid.1 })

unfoldable pub pay_net_yield : Runtime → PoolCall → Ledger → ℕ → Result Ledger
pay_net_yield r c tokens net_yield =
    if ltb 0 net_yield
    then r.transfer tokens c.pool_vault c.depositor_usdc_ata c.pool_key net_yield
    else ok tokens

-- Both claims after the accrual.
unfoldable pub pay_yield : Runtime → PoolCall → Holding → Result Holding
unfolding available_liquidity split_yield collect_yield_fee pay_net_yield record_claim
pay_yield r c h = do
  let yield_amount = h.deposit.accrued_yield
  require (ltb 0 yield_amount) StendarError.no_payment_due
  require_liquidity c h yield_amount
  split ← split_yield c yield_amount
  after_fee ← collect_yield_fee r c h split.0
  tokens ← pay_net_yield r c after_fee.tokens split.1
  recorded ← record_claim h.pool h.deposit yield_amount split.1
  ok (record after_fee { pool = recorded.0; deposit = recorded.1; tokens = tokens })

-- `claim_pool_yield`
unfoldable pub claim_pool_yield : Runtime → PoolCall → Holding → Result Holding
unfolding may_claim accrue pay_yield
claim_pool_yield r c h = do may_claim c h; accrued ← accrue c h; pay_yield r c accrued

-- `bot_claim_pool_yield`
unfoldable pub bot_claim_pool_yield : Runtime → PoolCall → Holding → Result Holding
unfolding bot_may_claim accrue pay_yield
bot_claim_pool_yield r c h = do bot_may_claim c h; accrued ← accrue c h; pay_yield r c accrued

-- `set_yield_preference`
unfoldable pub set_yield_preference : PoolCall → PoolDeposit → ℕ → Result PoolDeposit
set_yield_preference c d preference = do
  require (d.depositor == c.signer) StendarError.unauthorized_claim
  require (preference == yield_preference_compound || preference == yield_preference_claim)
      StendarError.invalid_yield_preference
  require_current_version d.account_version
  ok (record d { yield_preference = preference })

-- `compound_pool_yield` up to the accrual: the depositor may compound, and the bot for a depositor
-- who prefers it.
unfoldable pub may_compound : PoolCall → Holding → Result (Unit {0})
unfolding require_vault_key require_yield_accounts require_pool_token require_treasury_account
may_compound c h = do
  require (h.deposit.depositor == c.depositor) StendarError.unauthorized_claim
  require_vault_key c h.pool
  require_yield_accounts c h
  require (c.signer == c.depositor || c.signer == h.treasury.bot_authority)
      StendarError.unauthorized_bot_operation
  require (c.signer == c.depositor || h.deposit.yield_preference == yield_preference_compound)
      StendarError.yield_preference_mismatch
  require_pool_token h c.pool_vault c.pool_key
  require_treasury_account c h

-- The books after a compounding: the yield becomes principal, also beyond the capacity.
unfoldable pub record_compounding :
    PoolState → PoolDeposit → (yield_amount net_yield : ℕ) → Result (PoolState × PoolDeposit)
unfolding consume_pending_yield
record_compounding p d yield_amount net_yield = do
  amount ← ok_or (checked_add u64_max d.deposit_amount net_yield) StendarError.arithmetic_overflow
  compounded ←
      ok_or (checked_add u64_max d.total_yield_compounded net_yield)
        StendarError.arithmetic_overflow
  total ←
      ok_or (checked_add u64_max p.current_total_deposits net_yield)
        StendarError.arithmetic_overflow
  p' ← consume_pending_yield (record p { current_total_deposits = total }) yield_amount
  distributed ←
      ok_or (checked_add u64_max p'.total_yield_distributed net_yield)
        StendarError.arithmetic_overflow
  ok (
    record p' { total_yield_distributed = distributed },
    record d { deposit_amount = amount; accrued_yield = 0; total_yield_compounded = compounded },
  )

-- `compound_pool_yield` after the accrual.
unfoldable pub compound_yield : Runtime → PoolCall → Holding → Result Holding
unfolding split_yield collect_yield_fee record_compounding
compound_yield r c h = do
  let yield_amount = h.deposit.accrued_yield
  require (ltb 0 yield_amount) StendarError.no_payment_due
  split ← split_yield c yield_amount
  require (leb split.0 (h.tokens c.pool_vault).amount) StendarError.insufficient_pool_liquidity
  after_fee ← collect_yield_fee r c h split.0
  recorded ← record_compounding h.pool h.deposit yield_amount split.1
  ok (record after_fee { pool = recorded.0; deposit = recorded.1 })

-- `compound_pool_yield`
unfoldable pub compound_pool_yield : Runtime → PoolCall → Holding → Result Holding
unfolding may_compound accrue compound_yield
compound_pool_yield r c h = do may_compound c h; accrued ← accrue c h; compound_yield r c accrued
