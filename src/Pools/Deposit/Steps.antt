-- ===== src/Pools/Deposit/Steps.antt =====
-- The steps of `deposit_to_pool`.
use stendar_l.Base.{ℕ, ◌+◌, ◌≤◌, ◌<◌, ◌≡◌, ◌⊎◌, arith, true, false}
use stendar_l.Base.Word.{checked_sub}
use stendar_l.Error.{StendarError, ok, ok_or, >>=-eq-ok}
use stendar_l.State.Enums.{PoolStatus}
use stendar_l.State.Pools.{PoolState, PoolDeposit}
use stendar_l.Utils.Fees.{calculate_fee_tenths_bps}
use stendar_l.Ledger.{Runtime, Ledger}
use stendar_l.Pools.Call.{Holding, PoolCall}
use stendar_l.Pools.Fees.{collect_fee}
use stendar_l.Pools.Withdraw.{accrue}
use stendar_l.Pools.Deposit.{
  may_deposit, open_deposit, require_deposit_accounts, require_capacity, set_frontend, pay_in,
  record_deposit, deposit_to_pool,
}

-- What the tests establish: the platform and the pool run, and the pool takes the amount.
pub record IsAdmitted (c : PoolCall) (h : Holding) (amount : ℕ) : Type 0 where
  pub positive : 0 < amount
  pub running : c.state.is_paused ≡ false
  pub active : h.pool.status ≡ PoolStatus.active
  pub authorized : h.pool.authorized ≡ true
  pub at_least : h.pool.minimum_deposit ≤ amount
  pub vault : c.pool_vault ≡ h.pool.vault_token_account

pub may_deposit-IsAdmitted :
    (c : PoolCall) (h : Holding) (amount : ℕ)
    → may_deposit c h amount ≡ ok tt
    → IsAdmitted c h amount
unfolding may_deposit
may_deposit-IsAdmitted c h amount e = ground arith

require_capacity-le :
    (p : PoolState) (net : ℕ)
    → require_capacity p net ≡ ok tt
    → (p.capacity ≡ 0) ⊎ (p.current_total_deposits + net ≤ p.capacity)
unfolding require_capacity
require_capacity-le p net e = ground arith

pub record PayInSteps (r : Runtime) (c : PoolCall) (h : Holding) (fee net : ℕ) (h' : Holding)
    : Type 0 where
  pub after_fee : Ledger
  pub charged :
      collect_fee r h.tokens h.treasury c.depositor_usdc_ata c.depositor fee h.deposit.frontend
        h.pool.loan_mint c.treasury_usdc_account c.frontend_usdc_ata
      ≡ ok (h'.treasury, after_fee)
  pub paid : r.transfer after_fee c.depositor_usdc_ata c.pool_vault c.depositor net ≡ ok h'.tokens
  pub recorded : record_deposit h.pool h.deposit net c ≡ ok (h'.pool, h'.deposit)

pub pay_in-PayInSteps :
    (r : Runtime) (c : PoolCall) (h : Holding) (fee net : ℕ) (h' : Holding)
    → pay_in r c h fee net ≡ ok h'
    → PayInSteps r c h fee net h'
unfolding pay_in
pay_in-PayInSteps r c h fee net h' e =
    let (p, charged, rest) =
      >>=-eq-ok
        (collect_fee r h.tokens h.treasury c.depositor_usdc_ata c.depositor fee h.deposit.frontend
          h.pool.loan_mint c.treasury_usdc_account c.frontend_usdc_ata)
        _ e in
    let (tokens, paid, rest') =
      >>=-eq-ok (r.transfer p.1 c.depositor_usdc_ata c.pool_vault c.depositor net) _ rest in
    let (recorded, done, last) = >>=-eq-ok (record_deposit h.pool h.deposit net c) _ rest' in
    record { after_fee = p.1; charged = cc; paid = cc; recorded = cc }

pub record DepositRun (r : Runtime) (c : PoolCall) (h : Holding) (amount : ℕ) (h' : Holding)
    : Type 0 where
  pub opened : PoolDeposit
  pub fee : ℕ
  pub net : ℕ
  pub accrued : Holding
  pub admitted : IsAdmitted c h amount
  pub opens : open_deposit c h.deposit ≡ ok opened
  pub rate : calculate_fee_tenths_bps amount c.state.pool_deposit_fee_bps ≡ ok fee
  pub split : fee + net ≡ amount
  pub room : (h.pool.capacity ≡ 0) ⊎ (h.pool.current_total_deposits + net ≤ h.pool.capacity)
  pub accrues : accrue c (record h { deposit = opened }) ≡ ok accrued
  pub pays :
      pay_in r c (record accrued { deposit = set_frontend c accrued.deposit }) fee net ≡ ok h'

pub deposit_to_pool-DepositRun :
    (r : Runtime) (c : PoolCall) (h : Holding) (amount : ℕ) (h' : Holding)
    → deposit_to_pool r c h amount ≡ ok h'
    → DepositRun r c h amount h'
unfolding deposit_to_pool
deposit_to_pool-DepositRun r c h amount h' e =
    let (_, admitted, r1) = >>=-eq-ok (may_deposit c h amount) _ e in
    let (opened, opens, r2) = >>=-eq-ok (open_deposit c h.deposit) _ r1 in
    let (_, accounts, r3) = >>=-eq-ok (require_deposit_accounts c h) _ r2 in
    let (fee, rate, r4) =
      >>=-eq-ok (calculate_fee_tenths_bps amount c.state.pool_deposit_fee_bps) _ r3 in
    let (net, left, r5) =
      >>=-eq-ok (ok_or (checked_sub amount fee) StendarError.arithmetic_overflow) _ r4 in
    let (_, room, r6) = >>=-eq-ok (require_capacity h.pool net) _ r5 in
    let (accrued, accrues, pays) = >>=-eq-ok (accrue c (record h { deposit = opened })) _ r6 in
    record {
      opened = opened;
      fee = fee;
      net = net;
      accrued = accrued;
      admitted = may_deposit-IsAdmitted c h amount admitted;
      opens = opens;
      rate = rate;
      split = ground (arith, left);
      room = require_capacity-le h.pool net room;
      accrues = accrues;
      pays = pays;
    }
