-- ===== src/Pools/Deposit/Effect.antt =====
-- What `deposit_to_pool` does.
use stendar_l.Base.{ℕ, ◌+◌, ◌≤◌, ◌<◌, ◌≡◌, ◌⊎◌, inl, inr, arith}
use stendar_l.Error.{ok}
use stendar_l.State.Pools.{PoolState, PoolDeposit}
use stendar_l.Utils.Fees.{calculate_fee_tenths_bps}
use stendar_l.Ledger.{Runtime, Ledger}
use stendar_l.Pools.Call.{Holding, PoolCall, require_own_deposit}
use stendar_l.Utils.Scale.{require_current_version}
use stendar_l.Pools.Fees.Payees.{FeePaid, collect_fee-FeePaid}
use stendar_l.Pools.Deposit.{open_deposit, set_frontend, deposit_to_pool, initialize}
use stendar_l.Pools.Books.{IsPosted, IsPosted-trans, Counts, bit}
use stendar_l.Pools.Books.Accrual.{accrue-AccruesOnly}
use stendar_l.Pools.Books.Deposits.{
  record_deposit-IsDeposited, record_deposit-Counts, calculate_fee_tenths_bps-lt,
}
use stendar_l.Pools.Deposit.Steps.{
  IsAdmitted, pay_in-PayInSteps, DepositRun, deposit_to_pool-DepositRun,
}

-- A deposit of an amount, of which the fee is taken off, into the account as it was opened.
pub record IsPaidIn (r : Runtime) (c : PoolCall) (h : Holding) (opened : PoolDeposit) (fee net : ℕ)
    (h' : Holding) : Type 0 where
  pub posted : IsPosted h.pool opened h'.pool h'.deposit
  pub principal : h'.deposit.deposit_amount ≡ opened.deposit_amount + net
  pub total : h'.pool.current_total_deposits ≡ h.pool.current_total_deposits + net
  pub capacity : (h.pool.capacity ≡ 0) ⊎ (h'.pool.current_total_deposits ≤ h.pool.capacity)
  pub after_fee : Ledger
  pub charged :
      FeePaid r h.tokens h.treasury c.depositor_usdc_ata c.depositor fee
        (set_frontend c opened).frontend
        h.pool.loan_mint
        c.treasury_usdc_account
        c.frontend_usdc_ata
        h'.treasury
        after_fee
  pub paid : r.transfer after_fee c.depositor_usdc_ata c.pool_vault c.depositor net ≡ ok h'.tokens

record SameBooks (d d' : PoolDeposit) : Type 0 where
  pub principal : d'.deposit_amount ≡ d.deposit_amount
  pub yield : d'.accrued_yield ≡ d.accrued_yield
  pub requested : d'.withdrawal_requested ≡ d.withdrawal_requested

set_frontend-SameBooks : (c : PoolCall) (d : PoolDeposit) → SameBooks d (set_frontend c d)
unfolding set_frontend
set_frontend-SameBooks c d = ground arith

SameBooks-IsPosted :
    (p : PoolState) (d d' : PoolDeposit)
    → SameBooks d d'
    → p.current_utilized ≤ p.current_total_deposits
    → IsPosted p d p d'
SameBooks-IsPosted p d d' same s = ground arith

set_frontend-frontend :
    (c : PoolCall) (d d' : PoolDeposit)
    → d'.frontend ≡ d.frontend
    → (set_frontend c d').frontend ≡ (set_frontend c d).frontend
unfolding set_frontend
set_frontend-frontend c d d' e = ground arith

pub run-IsPaidIn :
    (r : Runtime) (c : PoolCall) (h : Holding) (amount : ℕ) (h' : Holding)
    (run : DepositRun r c h amount h')
    → bit run.opened.withdrawal_requested ≤ h.pool.pending_withdrawal_requests
    → h.pool.current_utilized ≤ h.pool.current_total_deposits
    → IsPaidIn r c h run.opened run.fee run.net h'
run-IsPaidIn r c h amount h' run q s =
    let a = run.accrued in
    let (only, tokens, treasury) =
      accrue-AccruesOnly c (record h { deposit = run.opened }) a run.accrues s in
    let same = set_frontend-SameBooks c a.deposit in
    let steps =
      pay_in-PayInSteps r c (record a { deposit = set_frontend c a.deposit }) run.fee run.net h'
        run.pays in
    let done =
      record_deposit-IsDeposited a.pool (set_frontend c a.deposit) run.net c h'.pool h'.deposit
        steps.recorded (rw (same.requested, only.requested, only.requests) q) only.posted.covered in
    record {
      posted = IsPosted-trans only.posted (
          IsPosted-trans (SameBooks-IsPosted a.pool a.deposit _ same only.posted.covered)
            done.posted);
      principal = omega (arith, done.principal, same.principal, only.principal);
      total = omega (arith, done.total, only.total);
      capacity = ground (arith, run.room, done.total, only.total);
      after_fee = steps.after_fee;
      charged =
          rw
            (
              ← tokens,
              ← treasury,
              ← only.loan_mint,
              ← set_frontend-frontend c run.opened a.deposit only.frontend,
            )
            (collect_fee-FeePaid r a.tokens a.treasury c.depositor_usdc_ata c.depositor run.fee
              (set_frontend c a.deposit).frontend a.pool.loan_mint c.treasury_usdc_account
              c.frontend_usdc_ata h'.treasury steps.after_fee steps.charged);
      paid = steps.paid;
    }

-- The account is initialized if it is new, and used as it is if it is the depositor's.
pub open_cases :
    (c : PoolCall) (d o : PoolDeposit)
    → open_deposit c d ≡ ok o
    → (d.account_version ≡ 0) × (o ≡ initialize c.depositor c.pool_key c.now)
      ⊎ (d.account_version ≡ 1) × (d.depositor ≡ c.depositor) × (d.pool ≡ c.pool_key) × (o ≡ d)
unfolding open_deposit require_current_version require_own_deposit
open_cases c d o e = ground arith

pub opened_request :
    (c : PoolCall) (d o : PoolDeposit) {n : ℕ}
    → open_deposit c d ≡ ok o
    → bit d.withdrawal_requested ≤ n
    → bit o.withdrawal_requested ≤ n
unfolding initialize
opened_request c d o e q = elim (open_cases c d o e) [
  | inl (new, same) ↦ rw same (omega arith)
  | inr (old, by, at, same) ↦ rw same q
]

pub deposit_to_pool-IsPaidIn :
    (r : Runtime) (c : PoolCall) (h : Holding) (amount : ℕ) (h' : Holding)
    → deposit_to_pool r c h amount ≡ ok h'
    → bit h.deposit.withdrawal_requested ≤ h.pool.pending_withdrawal_requests
    → h.pool.current_utilized ≤ h.pool.current_total_deposits
    → (opened : PoolDeposit) × (fee : ℕ) × (net : ℕ) × (open_deposit c h.deposit ≡ ok opened)
      × (calculate_fee_tenths_bps amount c.state.pool_deposit_fee_bps ≡ ok fee)
      × (fee + net ≡ amount)
      × IsAdmitted c h amount
      × IsPaidIn r c h opened fee net h'
deposit_to_pool-IsPaidIn r c h amount h' e q s =
    let run = deposit_to_pool-DepositRun r c h amount h' e in
    (
      run.opened,
      run.fee,
      run.net,
      run.opens,
      run.rate,
      run.split,
      run.admitted,
      run-IsPaidIn r c h amount h' run (opened_request c h.deposit run.opened run.opens q) s,
    )

run-Counts :
    (r : Runtime) (c : PoolCall) (h : Holding) (amount : ℕ) (h' : Holding)
    (run : DepositRun r c h amount h')
    → bit run.opened.withdrawal_requested ≤ h.pool.pending_withdrawal_requests
    → h.pool.current_utilized ≤ h.pool.current_total_deposits
    → c.state.pool_deposit_fee_bps < 100_000
    → Counts h.pool run.opened h'.pool h'.deposit
run-Counts r c h amount h' run q s low =
    let a = run.accrued in
    let (only, tokens, treasury) =
      accrue-AccruesOnly c (record h { deposit = run.opened }) a run.accrues s in
    let same = set_frontend-SameBooks c a.deposit in
    let steps =
      pay_in-PayInSteps r c (record a { deposit = set_frontend c a.deposit }) run.fee run.net h'
        run.pays in
    let less =
      calculate_fee_tenths_bps-lt amount c.state.pool_deposit_fee_bps run.rate run.admitted.positive
        low in
    let counts =
      record_deposit-Counts a.pool (set_frontend c a.deposit) run.net c h'.pool h'.deposit
        steps.recorded (rw (same.requested, only.requested, only.requests) q)
        (omega (arith, less, run.split)) in
    omega (arith, only.depositors, rw (same.principal, only.principal) at counts)

-- A deposit is counted: at a fee rate below 100% the count of depositors rises by one exactly if the
-- deposit was empty.
pub deposit_to_pool-Counts :
    (r : Runtime) (c : PoolCall) (h : Holding) (amount : ℕ) (h' : Holding)
    → deposit_to_pool r c h amount ≡ ok h'
    → bit h.deposit.withdrawal_requested ≤ h.pool.pending_withdrawal_requests
    → h.pool.current_utilized ≤ h.pool.current_total_deposits
    → c.state.pool_deposit_fee_bps < 100_000
    → (opened : PoolDeposit) × (open_deposit c h.deposit ≡ ok opened)
      × Counts h.pool opened h'.pool h'.deposit
deposit_to_pool-Counts r c h amount h' e q s low =
    let run = deposit_to_pool-DepositRun r c h amount h' e in
    (
      run.opened,
      run.opens,
      run-Counts r c h amount h' run (opened_request c h.deposit run.opened run.opens q) s low,
    )
