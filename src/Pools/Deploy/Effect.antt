-- ===== src/Pools/Deploy/Effect.antt =====
-- What a pool's lending does to its books (`pool_deploy_to_contract`, `pool_claim_from_escrow`).
use stendar_l.Base.{ℕ, ◌+◌, ◌≤◌, ◌<◌, ◌≡◌, arith, refl, false, ltb, ◌==◌}
use stendar_l.Base.Int.{ℤ}
use stendar_l.Base.Word.{u64_max, checked_add}
use stendar_l.Error.{StendarError, ok, ok_or, require, >>=-eq-ok}
use stendar_l.State.Enums.{PoolStatus}
use stendar_l.State.Contract.{Pubkey}
use stendar_l.State.Accounts.{LenderEscrow}
use stendar_l.State.Pools.{PoolState, available_liquidity}
use stendar_l.Ledger.{Runtime, Ledger}
use stendar_l.Revolving.Pairs.{escrow_address}
use stendar_l.Pools.Call.{refresh_pool_idle_since}
use stendar_l.Lending.Funding.{Funded, finalize_contribution_to_contract, advance_funding}
use stendar_l.Lending.Funding.Slots.{IsContributed, finalize_contribution-IsContributed}
use stendar_l.Pools.Deploy.{
  Lending, LendingCall, may_deploy, check_free, pool_deploy_to_contract, may_claim_escrow,
  record_escrow_claim, pool_claim_from_escrow, offering_of, accounts_of,
}

-- What the tests of a deployment establish.
pub record IsDeployable (s : Lending) (c : LendingCall) (amount : ℕ) : Type 0 where
  pub by_operator : s.pool.operator ≡ c.signer
  pub positive : 0 < amount
  pub running : c.state.is_paused ≡ false
  pub active : s.pool.status ≡ PoolStatus.active
  pub free : amount + s.pool.current_utilized ≤ s.pool.current_total_deposits
  pub in_vault : amount ≤ (s.tokens c.pool_vault).amount

may_deploy-IsDeployable :
    (s : Lending) (c : LendingCall) (amount : ℕ)
    → may_deploy s c amount ≡ ok tt
    → IsDeployable s c amount
unfolding may_deploy check_free available_liquidity
may_deploy-IsDeployable s c amount h = ground arith

-- What a deployment does.
pub record IsDeployed (s : Lending) (c : LendingCall) (amount : ℕ) (s' : Lending) : Type 0 where
  pub admitted : IsDeployable s c amount
  pub pool : s'.pool ≡ record s.pool { current_utilized = s.pool.current_utilized + amount }
  pub covered : s'.pool.current_utilized ≤ s'.pool.current_total_deposits
  pub funded : Funded
  pub contributed : IsContributed s.contract (offering_of c amount) funded
  pub contribution : s'.contribution ≡ funded.contribution

checked_add-ok :
    (a b n : ℕ) (e : StendarError) → ok_or (checked_add u64_max a b) e ≡ ok n → n ≡ a + b
checked_add-ok a b n e h = ground arith

finish_deployment :
    (s : Lending) (c : LendingCall) (amount : ℕ) (s' : Lending) (funded : Funded) (utilized : ℕ)
    (m : Lending)
    → IsDeployable s c amount
    → IsContributed s.contract (offering_of c amount) funded
    → utilized ≡ s.pool.current_utilized + amount
    → m.pool ≡ record s.pool { current_utilized = utilized }
    → m.contribution ≡ funded.contribution
    → ok m ≡ ok s'
    → IsDeployed s c amount s'
finish_deployment s c amount s' funded utilized m may contributed added pool contribution last =
    let same : s'.pool ≡ record s.pool { current_utilized = s.pool.current_utilized + amount } =
      cc in
    record {
      admitted = may;
      pool = same;
      covered = rw same (omega (arith, may.free));
      funded = funded;
      contributed = contributed;
      contribution = cc;
    }

-- A deployment that succeeds is the operator's, of what the running pool has free, into a contract
-- that is open for it; it is a contribution of the pool, and it only raises what is utilized, which
-- the deposits still cover.
pub pool_deploy_to_contract-IsDeployed :
    (r : Runtime) (s : Lending) (c : LendingCall) (amount : ℕ) (s' : Lending)
    → pool_deploy_to_contract r s c amount ≡ ok s'
    → IsDeployed s c amount s'
unfolding pool_deploy_to_contract
pool_deploy_to_contract-IsDeployed r s c amount s' h =
    let (_, may, r1) = >>=-eq-ok (may_deploy s c amount) _ h in
    let (funded, finalized, r2) =
      >>=-eq-ok (finalize_contribution_to_contract s.contract s.contribution (offering_of c amount))
        _ r1 in
    let (paid, transferred, r3) =
      >>=-eq-ok (r.transfer s.tokens c.pool_vault c.contract_usdc_account c.pool_key amount) _ r2 in
    let (advanced, done, r4) =
      >>=-eq-ok (advance_funding r paid funded.contract (accounts_of c) c.now) _ r3 in
    let (utilized, added, last) =
      >>=-eq-ok
        (ok_or (checked_add u64_max s.pool.current_utilized amount)
          StendarError.arithmetic_overflow)
        _ r4 in
    finish_deployment s c amount s' funded utilized _ (may_deploy-IsDeployable s c amount may)
      (finalize_contribution-IsContributed s.contract s.contribution (offering_of c amount) funded
        finalized)
      (checked_add-ok s.pool.current_utilized amount utilized _ added) refl refl last

-- What a claim from an escrow does to the pool and the escrow.
pub record IsClaimedBack (p : PoolState) (e : LenderEscrow) (p' : PoolState) (e' : LenderEscrow)
    : Type 0 where
  pub utilized : p'.current_utilized + e.available_principal ≡ p.current_utilized
  pub deposits_kept : p'.current_total_deposits ≡ p.current_total_deposits
  pub yield_kept : p'.total_pending_yield ≡ p.total_pending_yield
  pub requests_kept : p'.pending_withdrawal_requests ≡ p.pending_withdrawal_requests
  pub emptied : (e'.available_interest ≡ 0) × (e'.available_principal ≡ 0)
  pub claimed : e'.total_claimed ≡ e.total_claimed + (e.available_interest + e.available_principal)

record_escrow_claim-IsClaimedBack :
    (p : PoolState) (e : LenderEscrow) (now : ℤ) (p' : PoolState) (e' : LenderEscrow)
    → record_escrow_claim p e (e.available_interest + e.available_principal) now ≡ ok (p', e')
    → IsClaimedBack p e p' e'
unfolding record_escrow_claim refresh_pool_idle_since
record_escrow_claim-IsClaimedBack p e now p' e' h = ground arith

finish_claim_back :
    (r : Runtime) (s : Lending) (c : LendingCall) (escrow_key escrow_usdc : Pubkey) (s' : Lending)
    (total : ℕ) (tokens : Ledger) (p : PoolState) (e : LenderEscrow)
    → total ≡ s.escrow.available_interest + s.escrow.available_principal
    → r.transfer s.tokens escrow_usdc c.pool_vault escrow_key total ≡ ok tokens
    → record_escrow_claim s.pool s.escrow total c.now ≡ ok (p, e)
    → ok (record s { pool = p; escrow = e; tokens = tokens }) ≡ ok s'
    → IsClaimedBack s.pool s.escrow s'.pool s'.escrow
      × (r.transfer s.tokens escrow_usdc c.pool_vault escrow_key
            (s.escrow.available_interest + s.escrow.available_principal)
          ≡ ok s'.tokens)
finish_claim_back r s c escrow_key escrow_usdc s' total tokens p e sum paid done last =
    let recorded : record_escrow_claim s.pool s.escrow
          (s.escrow.available_interest + s.escrow.available_principal) c.now
        ≡ ok (s'.pool, s'.escrow) =
      cc in
    (record_escrow_claim-IsClaimedBack s.pool s.escrow c.now s'.pool s'.escrow recorded, cc)

-- A claim from an escrow that succeeds empties it into the pool's vault, and principal that comes
-- back is no longer utilized: what is free grows by it.
pub pool_claim_from_escrow-IsClaimedBack :
    (r : Runtime) (s : Lending) (c : LendingCall) (bot escrow_key escrow_usdc : Pubkey)
    (s' : Lending)
    → pool_claim_from_escrow r s c bot escrow_key escrow_usdc ≡ ok s'
    → IsClaimedBack s.pool s.escrow s'.pool s'.escrow
      × (r.transfer s.tokens escrow_usdc c.pool_vault escrow_key
            (s.escrow.available_interest + s.escrow.available_principal)
          ≡ ok s'.tokens)
unfolding pool_claim_from_escrow
pool_claim_from_escrow-IsClaimedBack r s c bot escrow_key escrow_usdc s' h =
    let (_, may, r1) = >>=-eq-ok (may_claim_escrow s c bot escrow_key escrow_usdc) _ h in
    let (total, sum, r2) =
      >>=-eq-ok
        (ok_or (checked_add u64_max s.escrow.available_interest s.escrow.available_principal)
          StendarError.arithmetic_overflow)
        _ r1 in
    let (_, positive, r3) = >>=-eq-ok (require (ltb 0 total) StendarError.no_payment_due) _ r2 in
    let (_, address, r4) =
      >>=-eq-ok
        (require (escrow_address r c.contract_key c.pool_key == escrow_key)
          StendarError.invalid_contribution)
        _ r3 in
    let (tokens, paid, r5) =
      >>=-eq-ok (r.transfer s.tokens escrow_usdc c.pool_vault escrow_key total) _ r4 in
    let (recorded, done, last) = >>=-eq-ok (record_escrow_claim s.pool s.escrow total c.now) _ r5 in
    finish_claim_back r s c escrow_key escrow_usdc s' total tokens recorded.0 recorded.1
      (checked_add-ok s.escrow.available_interest s.escrow.available_principal total _ sum) paid
      done last
