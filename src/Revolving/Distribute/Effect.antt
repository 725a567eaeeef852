-- ===== src/Revolving/Distribute/Effect.antt =====
-- What a successful distribution does to the facility (`distribute_standby_fees`).
use stendar_l.Base.{
  ℕ, ◌+◌, ◌-◌, ◌*◌, ◌≤◌, ◌<◌, ◌≡◌, ◌⊎◌, arith, refl, true, inl, inr, if◌then◌else◌,
}
use stendar_l.Base.Int.{ℤ}
use stendar_l.Base.Keys.{length}
use stendar_l.Error.{StendarError, ok, Result-cases, err}
use stendar_l.State.Enums.{ContractStatus}
use stendar_l.State.Contract.{Pubkey, DebtContract, update_bot_tracking}
use stendar_l.Utils.Interest.{checkpoint_standby_fees, check_revolving_completion}
use stendar_l.Ledger.{Runtime, IsTokenProgram}
use stendar_l.Revolving.Facility.{Facility, Caller}
use stendar_l.Revolving.Facility.UpToDate.{checkpoint-SameTerms}
use stendar_l.Revolving.Repay.{complete_if_done}
use stendar_l.Revolving.Distribute.{
  Progress, distribute_all, may_distribute, record_distribution, distribution_of,
  distribute_standby_fees,
}
use stendar_l.Revolving.Distribute.Shares.{contributed}
use stendar_l.Revolving.Distribute.Total.{distribute_all_takes, distribute_all-total}

-- The loop's first state.
abbrev pub start : Facility → DebtContract → Progress
start f contract = record {
  tokens = f.tokens;
  accounts = f.accounts;
  remaining_contributions = contract.contributions;
  distributed_standby = 0;
}

-- The steps of a distribution that succeeded.
pub record DistributeSteps (r : Runtime) (f : Facility) (c : Caller) (now : ℤ)
    (contract : DebtContract) (done : Progress) (f' : Facility) : Type 0 where
  pub admitted : may_distribute f c ≡ ok tt
  pub funded : contract.accrued_standby_fees ≤ (f.tokens c.contract_usdc_account).amount
  pub some_funding : 0 < contract.funded_amount
  pub shape : length c.remaining_accounts ≡ 3 * length contract.contributions
  pub rounds :
      distribute_all r (distribution_of f c contract) 0 c.remaining_accounts (start f contract)
      ≡ ok done
  pub recorded : record_distribution contract done.distributed_standby now ≡ ok f'.contract
  pub tokens : f'.tokens ≡ done.tokens
  pub debt : f'.state.total_debt ≡ f.state.total_debt
  pub same_key : f'.contract_key ≡ f.contract_key

distribute_from-DistributeSteps :
    (r : Runtime) (f : Facility) (c : Caller) (now : ℤ) (contract : DebtContract) (f' : Facility)
    (done : Progress)
    → distribute_standby_fees r f c now ≡ ok f'
    → checkpoint_standby_fees f.contract now ≡ ok contract
    → distribute_all r (distribution_of f c contract) 0 c.remaining_accounts (start f contract)
      ≡ ok done
    → DistributeSteps r f c now contract done f'
unfolding distribute_standby_fees
distribute_from-DistributeSteps r f c now contract f' done h e k = ground arith

checkpoint_stops :
    (r : Runtime) (f : Facility) (c : Caller) (now : ℤ) (f' : Facility) (e : StendarError)
    → distribute_standby_fees r f c now ≡ ok f'
    → checkpoint_standby_fees f.contract now ≡ err e
    → ⊥
unfolding distribute_standby_fees
checkpoint_stops r f c now f' e h k = ground arith

rounds_stop :
    (r : Runtime) (f : Facility) (c : Caller) (now : ℤ) (contract : DebtContract) (f' : Facility)
    (e : StendarError)
    → distribute_standby_fees r f c now ≡ ok f'
    → checkpoint_standby_fees f.contract now ≡ ok contract
    → distribute_all r (distribution_of f c contract) 0 c.remaining_accounts (start f contract)
      ≡ err e
    → ⊥
unfolding distribute_standby_fees
rounds_stop r f c now contract f' e h g k = ground arith

distribute-DistributeSteps :
    (r : Runtime) (f : Facility) (c : Caller) (now : ℤ) (f' : Facility)
    → distribute_standby_fees r f c now ≡ ok f'
    → (contract : DebtContract) × (done : Progress) × (checkpoint_standby_fees f.contract now
        ≡ ok contract)
      × DistributeSteps r f c now contract done f'
distribute-DistributeSteps r f c now f' h =
    elim (Result-cases (checkpoint_standby_fees f.contract now)) [
      | inl (a, e) ↦
          elim (Result-cases
            (distribute_all r (distribution_of f c a) 0 c.remaining_accounts (start f a))) [
              | inl (done, k) ↦
                  (a, done, e, distribute_from-DistributeSteps r f c now a f' done h e k)
              | inr (x, k) ↦ absurd (rounds_stop r f c now a f' x h e k)
            ]
      | inr (x, k) ↦ absurd (checkpoint_stops r f c now f' x h k)
    ]

distribute_admitted :
    (f : Facility) (c : Caller)
    → may_distribute f c ≡ ok tt
    → (f.treasury.bot_authority ≡ c.signer)
      × (c.contract_usdc_account ≡ f.contract.loan_token_account)
      × (f.contract.is_revolving ≡ true)
      × ((f.contract.status ≡ ContractStatus.active)
          ⊎ (f.contract.status ≡ ContractStatus.pending_recall))
unfolding may_distribute
distribute_admitted f c h = ground arith

record_distribution-effect :
    (c : DebtContract) (distributed : ℕ) (now : ℤ) (c' : DebtContract)
    → record_distribution c distributed now ≡ ok c'
    → (c'.total_standby_fees_paid ≡ c.total_standby_fees_paid + distributed)
      × (c'.accrued_standby_fees ≡ 0)
      × (c'.available_amount
          ≡ (if c.revolving_closed then c.available_amount else c.available_amount - distributed))
      × (c'.drawn_amount ≡ c.drawn_amount)
      × (c'.outstanding_balance ≡ c.outstanding_balance)
      × (c'.credit_limit ≡ c.credit_limit)
      × (c'.is_revolving ≡ c.is_revolving)
      × (c'.revolving_closed ≡ c.revolving_closed)
      × (c'.borrower ≡ c.borrower)
      × (c'.loan_token_account ≡ c.loan_token_account)
      × ((c'.status ≡ c.status)
          ⊎ (c'.status ≡ ContractStatus.completed)
            × (c.revolving_closed ≡ true)
            × (c.drawn_amount ≡ 0))
unfolding record_distribution complete_if_done update_bot_tracking check_revolving_completion
record_distribution-effect c distributed now c' h = ground arith

-- What a distribution does to the facility.
pub record IsDistributed (f : Facility) (c : Caller) (distributed : ℕ) (f' : Facility)
    : Type 0 where
  pub by_bot : f.treasury.bot_authority ≡ c.signer
  pub live :
      (f.contract.status ≡ ContractStatus.active)
      ⊎ (f.contract.status ≡ ContractStatus.pending_recall)
  pub paid : f'.contract.total_standby_fees_paid ≡ f.contract.total_standby_fees_paid + distributed
  pub nothing_accrued : f'.contract.accrued_standby_fees ≡ 0
  pub available : f'.contract.available_amount ≡ (
      if f.contract.revolving_closed
      then f.contract.available_amount
      else f.contract.available_amount - distributed)
  pub drawn : f'.contract.drawn_amount ≡ f.contract.drawn_amount
  pub balance : f'.contract.outstanding_balance ≡ f.contract.outstanding_balance
  pub limit : f'.contract.credit_limit ≡ f.contract.credit_limit
  pub revolving : f'.contract.is_revolving ≡ true
  pub closed : f'.contract.revolving_closed ≡ f.contract.revolving_closed
  pub borrower : f'.contract.borrower ≡ f.contract.borrower
  pub vault : f'.contract.loan_token_account ≡ f.contract.loan_token_account
  pub debt : f'.state.total_debt ≡ f.state.total_debt
  pub key : f'.contract_key ≡ f.contract_key
  -- No account loses more than what was distributed.
  pub at_most : (v : Pubkey) → (f.tokens v).amount ≤ (f'.tokens v).amount + distributed
  pub status :
      (f'.contract.status ≡ f.contract.status)
      ⊎ (f'.contract.status ≡ ContractStatus.completed)
        × (f.contract.revolving_closed ≡ true)
        × (f'.contract.drawn_amount ≡ 0)

-- Over a token program as documented, a distribution that succeeds was asked for by the bot on a
-- live facility. It clears the accrued fees, counts what it distributed as paid, takes from no
-- account more than that, and takes it off what is available unless the facility is closed.
pub distribute_standby_fees-IsDistributed :
    (r : Runtime)
    → IsTokenProgram r
    → (f : Facility) (c : Caller) (now : ℤ) (f' : Facility)
    → distribute_standby_fees r f c now ≡ ok f'
    → (distributed : ℕ) × IsDistributed f c distributed f'
distribute_standby_fees-IsDistributed r law f c now f' h =
    let (a, done, e, s) = distribute-DistributeSteps r f c now f' h in
    let admitted = distribute_admitted f c s.admitted in
    let same = checkpoint-SameTerms f.contract now a e in
    let written =
      record_distribution-effect a done.distributed_standby now f'.contract s.recorded in
    let d = distribution_of f c a in
    let takes = λ (v : Pubkey).
      distribute_all_takes r law d 0 c.remaining_accounts (start f a) done v s.rounds in
    (
      done.distributed_standby,
      record {
        by_bot = admitted.0;
        live = admitted.3;
        paid = ground arith;
        nothing_accrued = written.1;
        available = ground arith;
        drawn = ground arith;
        balance = ground arith;
        limit = ground arith;
        revolving = ground arith;
        closed = ground arith;
        borrower = ground arith;
        vault = ground arith;
        debt = s.debt;
        key = s.same_key;
        at_most = λ v. rw s.tokens (omega (arith, takes v));
        status = ground arith;
      },
    )

-- Over a token program as documented, a distribution that succeeds counts as paid exactly the fees
-- accrued by the time of the call, if the contract has a lender and the contributions passed add up
-- to at most the funded amount.
pub distribute_standby_fees-total :
    (r : Runtime)
    → IsTokenProgram r
    → (f : Facility) (c : Caller) (now : ℤ) (contract : DebtContract) (f' : Facility)
    → distribute_standby_fees r f c now ≡ ok f'
    → checkpoint_standby_fees f.contract now ≡ ok contract
    → 0 < length contract.contributions
    → contributed f.accounts.contribution_at c.remaining_accounts ≤ contract.funded_amount
    → f'.contract.total_standby_fees_paid
      ≡ f.contract.total_standby_fees_paid + contract.accrued_standby_fees
distribute_standby_fees-total r law f c now contract f' h checkpointed some_lender within =
    let (a, done, e, s) = distribute-DistributeSteps r f c now f' h in
    let same_contract : a ≡ contract = ground arith in
    let same = checkpoint-SameTerms f.contract now a e in
    let written =
      record_distribution-effect a done.distributed_standby now f'.contract s.recorded in
    let total =
      distribute_all-total r law (distribution_of f c a) c.remaining_accounts (start f a) done
        s.rounds s.shape (rw same_contract some_lender) s.some_funding refl
        (rw same_contract within) in
    rw (← same_contract) (ground arith)
