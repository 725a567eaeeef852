-- ===== src/Pools/Withdraw/Exits.antt =====
-- When a depositor can leave a pool, and when not.
use stendar_l.Base.{ℕ, ◌+◌, ◌≤◌, ◌<◌, ◌≡◌, ◌≢◌, inl, inr, arith, refl, ◌∙◌}
use stendar_l.Error.{StendarError, ok, err, >>=-eq-ok, Result-cases}
use stendar_l.State.Pools.{PoolState, PoolDeposit, available_liquidity}
use stendar_l.Ledger.{Runtime, Ledger}
use stendar_l.Pools.{accrue_deposit_yield}
use stendar_l.Utils.Scale.{require_current_version}
use stendar_l.Pools.Call.{
  require_own_deposit, require_vault_key, require_pool_token, Holding, PoolCall,
  clear_withdrawal_request, refresh_pool_idle_since,
}
use stendar_l.Pools.Withdraw.{
  accrue, may_withdraw, require_withdrawal_accounts, require_withdrawal_constraints,
  settle_withdrawal, pay_out, record_withdrawal, withdraw_from_pool,
}
use stendar_l.Pools.Withdraw.Effect.{withdraw_from_pool-pays_or_queues}
use stendar_l.Pools.Claim.{compound_pool_yield}
use stendar_l.Pools.Claim.Compound.{compound_pool_yield-IsReinvested}
use stendar_l.Pools.Deposit.{deposit_to_pool, open_deposit}
use stendar_l.Pools.Deposit.Effect.{deposit_to_pool-IsPaidIn, opened_request}
use stendar_l.Pools.Books.Accrual.{accrue-AccruesOnly}
use stendar_l.Pools.Books.{Counts, bit}

may_withdraw-positive :
    (c : PoolCall) (h : Holding) (amount : ℕ)
    → may_withdraw c h amount ≡ ok tt
    → (0 < amount) × (amount ≤ h.deposit.deposit_amount)
unfolding may_withdraw
may_withdraw-positive c h amount e = ground arith

withdraw-positive :
    (r : Runtime) (c : PoolCall) (h : Holding) (amount : ℕ) (h' : Holding)
    → withdraw_from_pool r c h amount ≡ ok h'
    → 0 < amount
unfolding withdraw_from_pool
withdraw-positive r c h amount h' e =
    let (_, admitted, rest) = >>=-eq-ok (may_withdraw c h amount) _ e in
    (may_withdraw-positive c h amount admitted).0

uncounted :
    (g h' : Holding) (amount : ℕ)
    → g.pool.num_depositors ≡ 0
    → 0 < amount
    → amount ≡ g.deposit.deposit_amount
    → h'.deposit.deposit_amount + amount ≡ g.deposit.deposit_amount
    → Counts g.pool g.deposit h'.pool h'.deposit
    → ⊥
uncounted g h' amount none_counted positive whole principal counts = ground arith

-- A depositor who had withdrawn everything, and whose last yield is then compounded, is not counted
-- among the depositors any more. Where the pool counts none, a withdrawal of all that was compounded
-- does not succeed: it is neither paid nor queued.
pub compounded_cannot_be_withdrawn :
    (r : Runtime) (c c' : PoolCall) (h g : Holding) (amount : ℕ) (h' : Holding)
    → compound_pool_yield r c h ≡ ok g
    → h.deposit.deposit_amount ≡ 0
    → h.pool.num_depositors ≡ 0
    → bit h.deposit.withdrawal_requested ≤ h.pool.pending_withdrawal_requests
    → h.pool.current_utilized ≤ h.pool.current_total_deposits
    → amount ≡ g.deposit.deposit_amount
    → withdraw_from_pool r c' g amount ≢ ok h'
compounded_cannot_be_withdrawn r c c' h g amount h' k empty none_counted q s whole e =
    let i = compound_pool_yield-IsReinvested r c h g k s in
    let positive = withdraw-positive r c' g amount h' e in
    elim (withdraw_from_pool-pays_or_queues r c' g amount h' e (omega (arith, i.posted.requests, q))
      i.posted.covered) [
        | inl (free, paid) ↦
            uncounted g h' amount (i.depositors ∙ none_counted) positive whole paid.principal
              paid.counts
        | inr (short, queue, waiting) ↦
            omega (arith, short, i.total, i.principal, i.posted.utilized, empty, whole, s)
      ]

-- What was deposited can be taken out again: a withdrawal that succeeds, of what a deposit added and
-- right after it, is paid and not queued, and leaves the deposit and the pool's total as they were
-- before the deposit. The pool's counter covers the deposit's request, and its deposits cover what is
-- utilized.
pub deposit_then_withdraw :
    (r : Runtime) (c c' : PoolCall) (h g : Holding) (amount : ℕ) (h' : Holding)
    → deposit_to_pool r c h amount ≡ ok g
    → bit h.deposit.withdrawal_requested ≤ h.pool.pending_withdrawal_requests
    → h.pool.current_utilized ≤ h.pool.current_total_deposits
    → (opened : PoolDeposit) (net : ℕ) → open_deposit c h.deposit ≡ ok opened
    → g.deposit.deposit_amount ≡ opened.deposit_amount + net
    → withdraw_from_pool r c' g net ≡ ok h'
    → (h'.deposit.deposit_amount ≡ opened.deposit_amount)
      × (h'.pool.current_total_deposits ≡ h.pool.current_total_deposits)
      × (r.transfer g.tokens c'.pool_vault c'.depositor_usdc_ata c'.pool_key net ≡ ok h'.tokens)
deposit_then_withdraw r c c' h g amount h' e q s opened net o added w =
    let (opened', fee, net', o', rate, split, admitted, paid) =
      deposit_to_pool-IsPaidIn r c h amount g e q s in
    let same : opened' ≡ opened = cc in
    let as_much : net' ≡ net = omega (arith, added, rw same at paid.principal) in
    let pending : bit g.deposit.withdrawal_requested ≤ g.pool.pending_withdrawal_requests =
      omega (arith, paid.posted.requests, opened_request c h.deposit opened' o' q) in
    elim (withdraw_from_pool-pays_or_queues r c' g net h' w pending paid.posted.covered) [
      | inl (free, out) ↦ (
        omega (arith, out.principal, added),
        omega (arith, out.total, paid.total, as_much),
        out.paid,
      )
      | inr (short, queue, waiting) ↦
          absurd (omega (arith, short, paid.total, paid.posted.utilized, as_much, s))
    ]

record_withdrawal-fails :
    (p : PoolState) (d : PoolDeposit) (amount : ℕ) (c : PoolCall) (e : StendarError)
    → record_withdrawal p d amount c ≡ err e
    → amount ≤ d.deposit_amount
    → amount ≤ p.current_total_deposits
    → 0 < p.num_depositors
    → ⊥
unfolding record_withdrawal clear_withdrawal_request refresh_pool_idle_since
record_withdrawal-fails p d amount c e h w t n = ground arith

recorded_amount :
    (p : PoolState) (d : PoolDeposit) (amount : ℕ) (c : PoolCall)
    (recorded : PoolState × PoolDeposit)
    → record_withdrawal p d amount c ≡ ok recorded
    → recorded.1.deposit_amount + amount ≡ d.deposit_amount
unfolding record_withdrawal clear_withdrawal_request refresh_pool_idle_since
recorded_amount p d amount c recorded e = ground arith

pay_out_succeeds :
    (r : Runtime) (c : PoolCall) (h : Holding) (amount : ℕ) (l' : Ledger)
    → r.transfer h.tokens c.pool_vault c.depositor_usdc_ata c.pool_key amount ≡ ok l'
    → amount ≤ h.deposit.deposit_amount
    → amount ≤ h.pool.current_total_deposits
    → 0 < h.pool.num_depositors
    → (h' : Holding) × (pay_out r c h amount ≡ ok h')
      × (h'.tokens ≡ l')
      × (h'.deposit.deposit_amount + amount ≡ h.deposit.deposit_amount)
unfolding pay_out
pay_out_succeeds r c h amount l' paid w t n =
    elim (Result-cases (record_withdrawal h.pool h.deposit amount c)) [
      | inl (recorded, e) ↦ (
        record h { pool = recorded.0; deposit = recorded.1; tokens = l' },
        rw (paid, e) refl,
        refl,
        recorded_amount h.pool h.deposit amount c recorded e,
      )
      | inr (e, k) ↦ absurd (record_withdrawal-fails h.pool h.deposit amount c e k w t n)
    ]

settle_pays :
    (r : Runtime) (c : PoolCall) (h : Holding) (amount : ℕ) (h' : Holding)
    → pay_out r c h amount ≡ ok h'
    → amount + h.pool.current_utilized ≤ h.pool.current_total_deposits
    → amount ≤ (h.tokens c.pool_vault).amount
    → settle_withdrawal r c h amount ≡ ok h'
unfolding settle_withdrawal available_liquidity
settle_pays r c h amount h' e free vault = ground arith

-- A depositor asks for an amount of their own deposit, into their own account, and passes the pool's
-- vault.
pub record IsOwnRequest (c : PoolCall) (h : Holding) (amount : ℕ) : Type 0 where
  pub depositor : h.deposit.depositor ≡ c.depositor
  pub of_pool : h.deposit.pool ≡ c.pool_key
  pub positive : 0 < amount
  pub within : amount ≤ h.deposit.deposit_amount
  pub vault : c.pool_vault ≡ h.pool.vault_token_account
  pub vault_owner : (h.tokens c.pool_vault).owner ≡ c.pool_key
  pub vault_mint : (h.tokens c.pool_vault).mint ≡ h.pool.loan_mint
  pub payee : (h.tokens c.depositor_usdc_ata).owner ≡ c.depositor
  pub payee_mint : (h.tokens c.depositor_usdc_ata).mint ≡ h.pool.loan_mint
  pub pool_version : h.pool.account_version ≡ 1
  pub deposit_version : h.deposit.account_version ≡ 1

IsOwnRequest-may_withdraw :
    (c : PoolCall) (h : Holding) (amount : ℕ)
    → IsOwnRequest c h amount
    → may_withdraw c h amount ≡ ok tt
unfolding may_withdraw require_own_deposit require_withdrawal_accounts
    require_withdrawal_constraints require_current_version require_vault_key require_pool_token
IsOwnRequest-may_withdraw c h amount own = ground (arith, own)

accrued_holding :
    (c : PoolCall) (h : Holding) (credited : ℕ) (p : PoolState) (d : PoolDeposit)
    → accrue_deposit_yield h.pool h.deposit c.now ≡ ok (credited, p, d)
    → accrue c h ≡ ok (record h { pool = p; deposit = d })
unfolding accrue
accrued_holding c h credited p d e = rw e refl

-- A depositor can leave: a request for an amount of their own deposit is paid, if the yield accrues
-- without overflow, the pool has the amount free, the vault holds it and the token program transfers
-- it, and if the pool counts a depositor. Nothing is asked of the pool's status, of its authorization
-- or of the platform's pause.
pub withdraw_from_pool_pays :
    (r : Runtime) (c : PoolCall) (h : Holding) (amount credited : ℕ) (p : PoolState)
    (d : PoolDeposit) (l' : Ledger)
    → IsOwnRequest c h amount
    → accrue_deposit_yield h.pool h.deposit c.now ≡ ok (credited, p, d)
    → amount + h.pool.current_utilized ≤ h.pool.current_total_deposits
    → amount ≤ (h.tokens c.pool_vault).amount
    → r.transfer h.tokens c.pool_vault c.depositor_usdc_ata c.pool_key amount ≡ ok l'
    → 0 < h.pool.num_depositors
    → (h' : Holding) × (withdraw_from_pool r c h amount ≡ ok h')
      × (h'.tokens ≡ l')
      × (h'.deposit.deposit_amount + amount ≡ h.deposit.deposit_amount)
unfolding withdraw_from_pool
withdraw_from_pool_pays r c h amount credited p d l' own accrues free vault paid counted =
    let may = IsOwnRequest-may_withdraw c h amount own in
    let a : Holding = record h { pool = p; deposit = d } in
    let run = accrued_holding c h credited p d accrues in
    let (only, tokens, treasury) = accrue-AccruesOnly c h a run (omega arith) in
    let (h', pays, same, left) =
      pay_out_succeeds r c a amount l' paid (omega (arith, only.principal, own.within))
        (omega (arith, only.total)) (omega (arith, only.depositors, counted)) in
    (
      h',
      rw (may, run)
          (settle_pays r c a amount h' pays (omega (arith, only.total, only.posted.utilized))
            vault),
      same,
      omega (arith, left, only.principal),
    )
