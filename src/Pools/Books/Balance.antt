-- ===== src/Pools/Books/Balance.antt =====
-- The books balance over any sequence of instructions on a pool.
use stendar_l.Base.{ℕ, ◌≤◌, ◌≡◌, arith, List, [], ◌∷◌, ◌++◌, refl, sym, ◌∙◌}
use stendar_l.Base.Int.{ℤ}
use stendar_l.Error.{ok}
use stendar_l.State.Enums.{PoolStatus}
use stendar_l.State.Contract.{Pubkey}
use stendar_l.State.Accounts.{PlatformState}
use stendar_l.State.Pools.{PoolState, PoolDeposit, initialize_rate_history}
use stendar_l.Ledger.{Runtime}
use stendar_l.Pools.Deposit.{initialize}
use stendar_l.Pools.Changes.{
  NewPool, AuthorizedPoolOperator, create_pool, new_pool, pause_pool, resume_pool, close_pool,
}
use stendar_l.Pools.Changes.Timelock.{apply_pool_changes-IsApplied}
use stendar_l.Pools.Deploy.Effect.{
  pool_deploy_to_contract-IsDeployed, pool_claim_from_escrow-IsClaimedBack,
}
use stendar_l.Pools.Books.{Balanced, IsPosted-Balanced, request_counted, total_of, total_of-split}
use stendar_l.Pools.Books.Runs.{
  Step, touches, opens, deploys, claims_back, applies, pauses, resumes, Run, stop, next,
}
use stendar_l.Pools.Books.Touched.{Touches-IsPosted, opening-IsPosted}

same_totals-Balanced :
    (p p' : PoolState) (ds : List PoolDeposit)
    → p'.current_total_deposits ≡ p.current_total_deposits
    → p'.total_pending_yield ≡ p.total_pending_yield
    → p'.pending_withdrawal_requests ≡ p.pending_withdrawal_requests
    → p'.current_utilized ≤ p'.current_total_deposits
    → Balanced p ds
    → Balanced p' ds
same_totals-Balanced p p' ds total yield queue covered b = record {
  deposits = total ∙ b.deposits;
  yield = yield ∙ b.yield;
  requests = queue ∙ b.requests;
  covered = covered;
}

-- An account that holds nothing changes no sum.
initialize-Balanced :
    (p : PoolState) (a b : Pubkey) (now : ℤ) (ds : List PoolDeposit)
    → Balanced p ds
    → Balanced p (initialize a b now ∷ ds)
unfolding initialize
initialize-Balanced p a b now ds w = record {
  deposits = omega (arith, w.deposits);
  yield = omega (arith, w.yield);
  requests = omega (arith, w.requests);
  covered = w.covered;
}

pause-same :
    (p p' : PoolState) (s : Pubkey)
    → pause_pool p s ≡ ok p'
    → p' ≡ record p { status = PoolStatus.paused }
unfolding pause_pool
pause-same p p' s e = ground arith

resume-same :
    (p p' : PoolState) (s : Pubkey)
    → resume_pool p s ≡ ok p'
    → p' ≡ record p { status = PoolStatus.active }
unfolding resume_pool
resume-same p p' s e = ground arith

-- Every instruction keeps the books: a pool whose totals are those of its deposits has them after
-- it, and what is utilized stays within the deposits.
pub Step-Balanced :
    (r : Runtime) (p p' : PoolState) (ds ds' : List PoolDeposit)
    → Step r p ds p' ds'
    → Balanced p ds
    → Balanced p' ds'
Step-Balanced r _ _ _ _ (touches h h' before after t) b =
    IsPosted-Balanced h.pool h'.pool before h.deposit h'.deposit after
      (Touches-IsPosted r h h' t (request_counted h.pool before h.deposit after b) b.covered) b
Step-Balanced r _ _ ds _ (opens h h' c amount _ new e) b =
    IsPosted-Balanced h.pool h'.pool [] (initialize c.depositor c.pool_key c.now) h'.deposit ds
      (opening-IsPosted r c h amount h' e new b.covered)
      (initialize-Balanced h.pool c.depositor c.pool_key c.now ds b)
Step-Balanced r _ _ ds _ (deploys s s' c amount _ e) b =
    let done = pool_deploy_to_contract-IsDeployed r s c amount s' e in
    same_totals-Balanced s.pool s'.pool ds (rw done.pool refl) (rw done.pool refl)
      (rw done.pool refl) done.covered b
Step-Balanced r _ _ ds _ (claims_back s s' c bot k usdc _ e) b =
    let (done, paid) = pool_claim_from_escrow-IsClaimedBack r s c bot k usdc s' e in
    same_totals-Balanced s.pool s'.pool ds done.deposits_kept done.yield_kept done.requests_kept
      (omega (arith, done.utilized, done.deposits_kept, b.covered)) b
Step-Balanced r p p' ds _ (applies _ _ pending k s now left _ e) b =
    let (done, own, closed) = apply_pool_changes-IsApplied p pending k s now p' left e in
    same_totals-Balanced p p' ds done.deposits_kept done.yield_kept done.requests_kept
      (omega (arith, done.utilized_kept, done.deposits_kept, b.covered)) b
Step-Balanced r p p' ds _ (pauses _ _ s _ e) b =
    let same = pause-same p p' s e in
    same_totals-Balanced p p' ds (rw same refl) (rw same refl) (rw same refl) (rw same b.covered) b
Step-Balanced r p p' ds _ (resumes _ _ s _ e) b =
    let same = resume-same p p' s e in
    same_totals-Balanced p p' ds (rw same refl) (rw same refl) (rw same refl) (rw same b.covered) b

Run-Balanced :
    (r : Runtime) (p p' : PoolState) (ds ds' : List PoolDeposit)
    → Run r p ds p' ds'
    → Balanced p ds
    → Balanced p' ds'
Run-Balanced r p _ ds _ (stop _ _) b = b
Run-Balanced r p p' ds ds' (next _ q _ _ es _ step more) b =
    Run-Balanced r q p' es ds' more (Step-Balanced r p q ds es step b)

created-Balanced :
    (state : PlatformState) (auth : AuthorizedPoolOperator) (n : NewPool)
    (operator mint vault : Pubkey) (now : ℤ) (p : PoolState)
    → create_pool state auth n operator mint vault now ≡ ok p
    → Balanced p []
unfolding create_pool new_pool initialize_rate_history
created-Balanced state auth n operator mint vault now p e = ground arith

-- From a pool's creation on, whatever instructions succeed on it, in any order: its total deposits,
-- its pending yield and its count of withdrawal requests are the sums over all its deposits, and
-- what it lends stays within what is deposited.
pub created-Run-Balanced :
    (r : Runtime) (state : PlatformState) (auth : AuthorizedPoolOperator) (n : NewPool)
    (operator mint vault : Pubkey) (now : ℤ) (p q : PoolState) (ds : List PoolDeposit)
    → create_pool state auth n operator mint vault now ≡ ok p
    → Run r p [] q ds
    → Balanced q ds
created-Run-Balanced r state auth n operator mint vault now p q ds e run =
    Run-Balanced r p q [] ds run (created-Balanced state auth n operator mint vault now p e)

-- No deposit holds more than the sum.
sum_bounds :
    (f : PoolDeposit → ℕ) (before : List PoolDeposit) (d : PoolDeposit) (after : List PoolDeposit)
    → total_of f (before ++ d ∷ after) ≡ 0
    → f d ≡ 0
sum_bounds f before d after z = omega (arith, z, total_of-split f before d after)

close-empty :
    (p p' : PoolState) (s : Pubkey) → close_pool p s ≡ ok p' → p.current_total_deposits ≡ 0
unfolding close_pool
close-empty p p' s e = ground arith

-- A pool that its operator closes, whatever came before since its creation, leaves no depositor with
-- principal in it.
pub closed_pool_holds_nothing :
    (r : Runtime) (state : PlatformState) (auth : AuthorizedPoolOperator) (n : NewPool)
    (operator mint vault : Pubkey) (now : ℤ) (p q q' : PoolState) (before : List PoolDeposit)
    (d : PoolDeposit) (after : List PoolDeposit) (s : Pubkey)
    → create_pool state auth n operator mint vault now ≡ ok p
    → Run r p [] q (before ++ d ∷ after)
    → close_pool q s ≡ ok q'
    → d.deposit_amount ≡ 0
closed_pool_holds_nothing r state auth n operator mint vault now p q q' before d after s e run c =
    let b =
      created-Run-Balanced r state auth n operator mint vault now p q (before ++ d ∷ after) e run in
    sum_bounds (λ (x : PoolDeposit). x.deposit_amount) before d after
      (sym b.deposits ∙ close-empty q q' s c)
