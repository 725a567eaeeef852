-- ===== src/Pools/Claim/Steps.antt =====
-- The steps of a claim after its tests (`claim_pool_yield`, `bot_claim_pool_yield`).
use stendar_l.Base.{ℕ, ◌+◌, ◌≤◌, ◌<◌, ◌≡◌, arith, ltb, leb}
use stendar_l.Base.Word.{checked_sub}
use stendar_l.Error.{StendarError, ok, ok_or, require, >>=-eq-ok}
use stendar_l.State.Pools.{PoolState, PoolDeposit}
use stendar_l.Utils.Fees.{calculate_fee_tenths_bps}
use stendar_l.Ledger.{Runtime, Ledger}
use stendar_l.Pools.Call.{Holding, PoolCall}
use stendar_l.Pools.Fees.{collect_fee}
use stendar_l.Pools.Withdraw.{require_liquidity}
use stendar_l.Pools.Claim.{split_yield, record_claim, collect_yield_fee, pay_net_yield, pay_yield}

pub split_yield-eq :
    (c : PoolCall) (gross : ℕ) {fee net : ℕ}
    → split_yield c gross ≡ ok (fee, net)
    → (calculate_fee_tenths_bps gross c.state.pool_yield_fee_bps ≡ ok fee) × (fee + net ≡ gross)
unfolding split_yield
split_yield-eq c gross e =
    let (fee', rate, r1) =
      >>=-eq-ok (calculate_fee_tenths_bps gross c.state.pool_yield_fee_bps) _ e in
    let (net', left, last) =
      >>=-eq-ok (ok_or (checked_sub gross fee') StendarError.arithmetic_overflow) _ r1 in
    (ground arith, ground arith)

pub collect_yield_fee-eq :
    (r : Runtime) (c : PoolCall) (h : Holding) (fee : ℕ) (h' : Holding)
    → collect_yield_fee r c h fee ≡ ok h'
    → collect_fee r h.tokens h.treasury c.pool_vault c.pool_key fee h.deposit.frontend
        h.pool.loan_mint c.treasury_usdc_account c.frontend_usdc_ata
      ≡ ok (h'.treasury, h'.tokens)
unfolding collect_yield_fee
collect_yield_fee-eq r c h fee h' e =
    let (paid, run, last) =
      >>=-eq-ok
        (collect_fee r h.tokens h.treasury c.pool_vault c.pool_key fee h.deposit.frontend
          h.pool.loan_mint c.treasury_usdc_account c.frontend_usdc_ata)
        _ e in
    cc

pub record PayYieldSteps (r : Runtime) (c : PoolCall) (h h' : Holding) : Type 0 where
  pub fee : ℕ
  pub net : ℕ
  pub after_fee : Ledger
  pub positive : 0 < h.deposit.accrued_yield
  pub split : split_yield c h.deposit.accrued_yield ≡ ok (fee, net)
  pub in_vault : h.deposit.accrued_yield ≤ (h.tokens c.pool_vault).amount
  pub charged :
      collect_fee r h.tokens h.treasury c.pool_vault c.pool_key fee h.deposit.frontend
        h.pool.loan_mint c.treasury_usdc_account c.frontend_usdc_ata
      ≡ ok (h'.treasury, after_fee)
  pub paid : pay_net_yield r c after_fee net ≡ ok h'.tokens
  pub recorded :
      record_claim h.pool h.deposit h.deposit.accrued_yield net ≡ ok (h'.pool, h'.deposit)

pub leb_le : (m n : ℕ) (e : StendarError) → require (leb m n) e ≡ ok tt → m ≤ n
leb_le m n e h = ground arith

pub ltb_positive : (n : ℕ) (e : StendarError) → require (ltb 0 n) e ≡ ok tt → 0 < n
ltb_positive n e h = ground arith

require_liquidity-vault :
    (c : PoolCall) (h : Holding) (amount : ℕ)
    → require_liquidity c h amount ≡ ok tt
    → amount ≤ (h.tokens c.pool_vault).amount
unfolding require_liquidity
require_liquidity-vault c h amount e = ground arith

finish_claim :
    (r : Runtime) (c : PoolCall) (h h' : Holding) (fee net : ℕ) (mid : Holding) (tokens : Ledger)
    (p : PoolState) (d : PoolDeposit)
    → 0 < h.deposit.accrued_yield
    → split_yield c h.deposit.accrued_yield ≡ ok (fee, net)
    → h.deposit.accrued_yield ≤ (h.tokens c.pool_vault).amount
    → collect_fee r h.tokens h.treasury c.pool_vault c.pool_key fee h.deposit.frontend
        h.pool.loan_mint c.treasury_usdc_account c.frontend_usdc_ata
      ≡ ok (mid.treasury, mid.tokens)
    → pay_net_yield r c mid.tokens net ≡ ok tokens
    → record_claim h.pool h.deposit h.deposit.accrued_yield net ≡ ok (p, d)
    → ok (record mid { pool = p; deposit = d; tokens = tokens }) ≡ ok h'
    → PayYieldSteps r c h h'
finish_claim r c h h' fee net mid tokens p d positive split in_vault charged paid done last =
    record {
      fee = fee;
      net = net;
      after_fee = mid.tokens;
      positive = positive;
      split = split;
      in_vault = in_vault;
      charged = cc;
      paid = cc;
      recorded = cc;
    }

pub pay_yield-PayYieldSteps :
    (r : Runtime) (c : PoolCall) (h h' : Holding) → pay_yield r c h ≡ ok h' → PayYieldSteps r c h h'
unfolding pay_yield
pay_yield-PayYieldSteps r c h h' e =
    let gross = h.deposit.accrued_yield in
    let (_, positive, r1) = >>=-eq-ok (require (ltb 0 gross) StendarError.no_payment_due) _ e in
    let (_, free, r2) = >>=-eq-ok (require_liquidity c h gross) _ r1 in
    let (split, splits, r3) = >>=-eq-ok (split_yield c gross) _ r2 in
    let (mid, charged, r4) = >>=-eq-ok (collect_yield_fee r c h split.0) _ r3 in
    let (tokens, paid, r5) = >>=-eq-ok (pay_net_yield r c mid.tokens split.1) _ r4 in
    let (recorded, done, last) = >>=-eq-ok (record_claim h.pool h.deposit gross split.1) _ r5 in
    finish_claim r c h h' split.0 split.1 mid tokens recorded.0 recorded.1
      (ltb_positive gross _ positive) splits (require_liquidity-vault c h gross free)
      (collect_yield_fee-eq r c h split.0 mid charged) paid done last
