-- ===== src/Pools/Claim/Effect.antt =====
-- What claims do with a deposit's yield.
use stendar_l.Base.{ℕ, ◌+◌, ◌≤◌, ◌<◌, ◌≡◌, ◌⊎◌, inl, inr, arith, refl, ◌∙◌}
use stendar_l.Error.{ok, >>=-eq-ok}
use stendar_l.Utils.Fees.{calculate_fee_tenths_bps}
use stendar_l.Ledger.{Runtime, Ledger}
use stendar_l.Pools.Call.{Holding, PoolCall}
use stendar_l.Pools.Fees.Payees.{FeePaid, collect_fee-FeePaid}
use stendar_l.State.Pools.{PoolState, PoolDeposit}
use stendar_l.Pools.{accrue_deposit_yield}
use stendar_l.Pools.Yield.{accrue_deposit_yield-IsCredited}
use stendar_l.Base.Int.{ℤ}
use stendar_l.Pools.Withdraw.{accrue}
use stendar_l.Pools.Claim.{
  may_claim, bot_may_claim, pay_net_yield, pay_yield, claim_pool_yield, bot_claim_pool_yield,
}
use stendar_l.Pools.Books.{IsPosted, IsPosted-trans, Counts}
use stendar_l.Pools.Books.Accrual.{accrue-eq, accrue-AccruesOnly}
use stendar_l.Pools.Books.Yields.{record_claim-IsClaimed}
use stendar_l.Pools.Claim.Steps.{split_yield-eq, pay_yield-PayYieldSteps}

-- A claim of a deposit's whole yield: the fee and the rest make it up, the fee leaves the vault for
-- the treasury and the frontend, and the rest for the depositor.
pub record IsPaidYield (r : Runtime) (c : PoolCall) (h : Holding) (h' : Holding) : Type 0 where
  pub credited : ℕ
  pub accrued_pool : PoolState
  pub accrued_deposit : PoolDeposit
  pub accrual :
      accrue_deposit_yield h.pool h.deposit c.now ≡ ok (credited, accrued_pool, accrued_deposit)
  pub gross : ℕ
  pub whole : gross ≡ h.deposit.accrued_yield + credited
  pub fee : ℕ
  pub net : ℕ
  pub posted : IsPosted h.pool h.deposit h'.pool h'.deposit
  pub counts : Counts h.pool h.deposit h'.pool h'.deposit
  pub positive : 0 < gross
  pub rate : calculate_fee_tenths_bps gross c.state.pool_yield_fee_bps ≡ ok fee
  pub split : fee + net ≡ gross
  pub claimed : h'.deposit.total_yield_claimed ≡ h.deposit.total_yield_claimed + net
  pub none_left : h'.deposit.accrued_yield ≡ 0
  pub owed : h'.pool.total_pending_yield + h.deposit.accrued_yield ≡ h.pool.total_pending_yield
  pub in_vault : gross ≤ (h.tokens c.pool_vault).amount
  pub principal : h'.deposit.deposit_amount ≡ h.deposit.deposit_amount
  pub after_fee : Ledger
  pub charged :
      FeePaid r h.tokens h.treasury c.pool_vault c.pool_key fee h.deposit.frontend h.pool.loan_mint
        c.treasury_usdc_account c.frontend_usdc_ata h'.treasury after_fee
  pub paid :
      (net ≡ 0) × (h'.tokens ≡ after_fee)
      ⊎ (r.transfer after_fee c.pool_vault c.depositor_usdc_ata c.pool_key net ≡ ok h'.tokens)

net_cases :
    (r : Runtime) (c : PoolCall) (after_fee : Ledger) (net : ℕ) (tokens : Ledger)
    → pay_net_yield r c after_fee net ≡ ok tokens
    → (net ≡ 0) × (tokens ≡ after_fee)
      ⊎ (r.transfer after_fee c.pool_vault c.depositor_usdc_ata c.pool_key net ≡ ok tokens)
unfolding pay_net_yield
net_cases r c after_fee net tokens e = ground arith

accrued_yield-eq :
    (p : PoolState) (d : PoolDeposit) (now : ℤ) (credited : ℕ) (p' : PoolState) (d' : PoolDeposit)
    → accrue_deposit_yield p d now ≡ ok (credited, p', d')
    → d'.accrued_yield ≡ d.accrued_yield + credited
accrued_yield-eq p d now credited p' d' h =
    elim (accrue_deposit_yield-IsCredited p d now credited p' d' h) [
      | inl (before, none_credited, pool, deposit) ↦ rw deposit (omega (arith, none_credited))
      | inr (newly, since, done) ↦ done.to_deposit
    ]

-- What both claims do after their tests.
claimed-IsPaidYield :
    (r : Runtime) (c : PoolCall) (h a h' : Holding)
    → accrue c h ≡ ok a
    → pay_yield r c a ≡ ok h'
    → h.pool.current_utilized ≤ h.pool.current_total_deposits
    → IsPaidYield r c h h'
claimed-IsPaidYield r c h a h' e k s =
    let (only, tokens, treasury) = accrue-AccruesOnly c h a e s in
    let (credited, run, treasury', tokens') = accrue-eq c h a e in
    let steps = pay_yield-PayYieldSteps r c a h' k in
    let (rate, split) = split_yield-eq c a.deposit.accrued_yield steps.split in
    let done =
      record_claim-IsClaimed a.pool a.deposit a.deposit.accrued_yield steps.net h'.pool h'.deposit
        steps.recorded refl only.posted.covered in
    record {
      credited = credited;
      accrued_pool = a.pool;
      accrued_deposit = a.deposit;
      accrual = run;
      gross = a.deposit.accrued_yield;
      whole = accrued_yield-eq h.pool h.deposit c.now credited a.pool a.deposit run;
      fee = steps.fee;
      net = steps.net;
      posted = IsPosted-trans only.posted done.posted;
      counts = omega (arith, only.depositors, rw only.principal at done.counts);
      positive = steps.positive;
      rate = rate;
      split = split;
      claimed = omega (arith, done.claimed, only.claimed);
      none_left = done.none_left;
      owed = omega (arith, only.posted.yield, done.posted.yield, done.none_left);
      in_vault = rw (← tokens) steps.in_vault;
      principal = done.principal ∙ only.principal;
      after_fee = steps.after_fee;
      charged =
          rw (← tokens, ← treasury, ← only.loan_mint, ← only.frontend)
            (collect_fee-FeePaid r a.tokens a.treasury c.pool_vault c.pool_key steps.fee
              a.deposit.frontend a.pool.loan_mint c.treasury_usdc_account c.frontend_usdc_ata
              h'.treasury steps.after_fee steps.charged);
      paid = net_cases r c steps.after_fee steps.net h'.tokens steps.paid;
    }

pub claim_pool_yield-IsPaidYield :
    (r : Runtime) (c : PoolCall) (h h' : Holding)
    → claim_pool_yield r c h ≡ ok h'
    → h.pool.current_utilized ≤ h.pool.current_total_deposits
    → IsPaidYield r c h h'
unfolding claim_pool_yield
claim_pool_yield-IsPaidYield r c h h' e s =
    let (_, admitted, r1) = >>=-eq-ok (may_claim c h) _ e in
    let (a, accrued, pays) = >>=-eq-ok (accrue c h) _ r1 in
    claimed-IsPaidYield r c h a h' accrued pays s

pub bot_claim_pool_yield-IsPaidYield :
    (r : Runtime) (c : PoolCall) (h h' : Holding)
    → bot_claim_pool_yield r c h ≡ ok h'
    → h.pool.current_utilized ≤ h.pool.current_total_deposits
    → IsPaidYield r c h h'
unfolding bot_claim_pool_yield
bot_claim_pool_yield-IsPaidYield r c h h' e s =
    let (_, admitted, r1) = >>=-eq-ok (bot_may_claim c h) _ e in
    let (a, accrued, pays) = >>=-eq-ok (accrue c h) _ r1 in
    claimed-IsPaidYield r c h a h' accrued pays s
