-- ===== src/Pools/Claim/Compound.antt =====
-- What `compound_pool_yield` does with a deposit's yield.
use stendar_l.Base.{ℕ, ◌+◌, ◌≤◌, ◌<◌, ◌≡◌, arith, ltb, leb, refl, ◌∙◌}
use stendar_l.Error.{StendarError, ok, require, >>=-eq-ok}
use stendar_l.State.Pools.{PoolState, PoolDeposit}
use stendar_l.Utils.Fees.{calculate_fee_tenths_bps}
use stendar_l.Ledger.{Runtime}
use stendar_l.Pools.Call.{Holding, PoolCall}
use stendar_l.Pools.Fees.{collect_fee}
use stendar_l.Pools.Withdraw.{accrue}
use stendar_l.Pools.Claim.{
  split_yield, collect_yield_fee, may_compound, record_compounding, compound_yield,
  compound_pool_yield,
}
use stendar_l.Pools.Books.{IsPosted, IsPosted-trans}
use stendar_l.Pools.Books.Accrual.{AccruesOnly, accrue-AccruesOnly}
use stendar_l.Pools.Books.Yields.{record_compounding-IsCompounded}
use stendar_l.Pools.Claim.Steps.{split_yield-eq, collect_yield_fee-eq, leb_le, ltb_positive}

-- A compounding of a deposit's whole yield: the fee and the rest make it up, the fee leaves the
-- vault, and the rest becomes principal.
pub record IsReinvested (r : Runtime) (c : PoolCall) (h : Holding) (h' : Holding) : Type 0 where
  pub gross : ℕ
  pub fee : ℕ
  pub net : ℕ
  pub posted : IsPosted h.pool h.deposit h'.pool h'.deposit
  pub positive : 0 < gross
  pub rate : calculate_fee_tenths_bps gross c.state.pool_yield_fee_bps ≡ ok fee
  pub split : fee + net ≡ gross
  pub none_left : h'.deposit.accrued_yield ≡ 0
  pub principal : h'.deposit.deposit_amount ≡ h.deposit.deposit_amount + net
  pub total : h'.pool.current_total_deposits ≡ h.pool.current_total_deposits + net
  pub depositors : h'.pool.num_depositors ≡ h.pool.num_depositors
  pub in_vault : fee ≤ (h.tokens c.pool_vault).amount
  pub charged :
      collect_fee r h.tokens h.treasury c.pool_vault c.pool_key fee h.deposit.frontend
        h.pool.loan_mint c.treasury_usdc_account c.frontend_usdc_ata
      ≡ ok (h'.treasury, h'.tokens)

finish_compounding :
    (r : Runtime) (c : PoolCall) (h a h' : Holding) (fee net : ℕ) (mid : Holding) (p : PoolState)
    (d : PoolDeposit)
    → AccruesOnly h.pool h.deposit a.pool a.deposit
    → a.tokens ≡ h.tokens
    → a.treasury ≡ h.treasury
    → 0 < a.deposit.accrued_yield
    → split_yield c a.deposit.accrued_yield ≡ ok (fee, net)
    → fee ≤ (a.tokens c.pool_vault).amount
    → collect_fee r a.tokens a.treasury c.pool_vault c.pool_key fee a.deposit.frontend
        a.pool.loan_mint c.treasury_usdc_account c.frontend_usdc_ata
      ≡ ok (mid.treasury, mid.tokens)
    → record_compounding a.pool a.deposit a.deposit.accrued_yield net ≡ ok (p, d)
    → ok (record mid { pool = p; deposit = d }) ≡ ok h'
    → IsReinvested r c h h'
finish_compounding r c h a h' fee net mid p d only tokens treasury positive splits in_vault charged
      done last =
    let (rate, split) = split_yield-eq c a.deposit.accrued_yield splits in
    let recorded : record_compounding a.pool a.deposit a.deposit.accrued_yield net
        ≡ ok (h'.pool, h'.deposit) =
      cc in
    let same : collect_fee r a.tokens a.treasury c.pool_vault c.pool_key fee a.deposit.frontend
          a.pool.loan_mint c.treasury_usdc_account c.frontend_usdc_ata
        ≡ ok (h'.treasury, h'.tokens) =
      cc in
    let books =
      record_compounding-IsCompounded a.pool a.deposit a.deposit.accrued_yield net h'.pool
        h'.deposit recorded refl only.posted.covered in
    record {
      gross = a.deposit.accrued_yield;
      fee = fee;
      net = net;
      posted = IsPosted-trans only.posted books.posted;
      positive = positive;
      rate = rate;
      split = split;
      none_left = books.none_left;
      principal = omega (arith, books.principal, only.principal);
      total = omega (arith, books.total, only.total);
      depositors = books.depositors ∙ only.depositors;
      in_vault = rw (← tokens) in_vault;
      charged = rw (← tokens, ← treasury, ← only.loan_mint, ← only.frontend) same;
    }

-- A compounding that succeeds turns a deposit's whole yield, what accrues at that moment included,
-- into principal, less the fee that leaves the vault; the count of depositors stays. The books are
-- kept, if the pool's deposits cover what is utilized.
pub compound_pool_yield-IsReinvested :
    (r : Runtime) (c : PoolCall) (h h' : Holding)
    → compound_pool_yield r c h ≡ ok h'
    → h.pool.current_utilized ≤ h.pool.current_total_deposits
    → IsReinvested r c h h'
unfolding compound_pool_yield compound_yield
compound_pool_yield-IsReinvested r c h h' e s =
    let (_, admitted, r1) = >>=-eq-ok (may_compound c h) _ e in
    let (a, accrued, r2) = >>=-eq-ok (accrue c h) _ r1 in
    let (only, tokens, treasury) = accrue-AccruesOnly c h a accrued s in
    let gross = a.deposit.accrued_yield in
    let (_, positive, r3) = >>=-eq-ok (require (ltb 0 gross) StendarError.no_payment_due) _ r2 in
    let (split, splits, r4) = >>=-eq-ok (split_yield c gross) _ r3 in
    let (_, in_vault, r5) =
      >>=-eq-ok
        (require (leb split.0 (a.tokens c.pool_vault).amount)
          StendarError.insufficient_pool_liquidity)
        _ r4 in
    let (mid, charged, r6) = >>=-eq-ok (collect_yield_fee r c a split.0) _ r5 in
    let (recorded, done, last) =
      >>=-eq-ok (record_compounding a.pool a.deposit gross split.1) _ r6 in
    finish_compounding r c h a h' split.0 split.1 mid recorded.0 recorded.1 only tokens treasury
      (ltb_positive gross _ positive) splits (leb_le split.0 _ _ in_vault)
      (collect_yield_fee-eq r c a split.0 mid charged) done last
