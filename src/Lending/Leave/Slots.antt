-- ===== src/Lending/Leave/Slots.antt =====
-- A withdrawal of a contribution frees the lender's slot (`withdraw_contribution`).
use stendar_l.Base.{
  ℕ, ◌+◌, ◌<◌, ◌≡◌, ◌⊎◌, inl, arith, refl, true, ◌&&◌, [], none, some, List, ◌∷◌, Option, ◌==◌,
  if◌then◌else◌,
}
use stendar_l.Base.Int.{ℤ}
use stendar_l.Base.Word.{checked_sub}
use stendar_l.Base.Keys.{count, remove_key, count-remove_key}
use stendar_l.Error.{StendarError, ok, ok_or, require, >>=-eq-ok}
use stendar_l.State.Enums.{ContractStatus, is_open}
use stendar_l.State.Contract.{Pubkey, DebtContract, update_bot_tracking}
use stendar_l.State.Accounts.{LenderContribution, LenderEscrow}
use stendar_l.Ledger.{Ledger, Runtime, Seed}
use stendar_l.Lending.Funding.Slots.{IsFunding, keys_of}
use stendar_l.Lending.Leave.{
  LenderCall, may_withdraw_contribution, pay_lender, remove_contribution, withdraw_contribution,
}

-- What the removal of a contribution leaves.
record IsRemoved (c : DebtContract) (k : Pubkey) (amount : ℕ) (c' : DebtContract) : Type 0 where
  pub funded : c'.funded_amount + amount ≡ c.funded_amount
  pub counted : c'.num_contributions + 1 ≡ c.num_contributions
  pub target_kept : c'.target_amount ≡ c.target_amount
  pub lenders_kept : c'.max_lenders ≡ c.max_lenders
  pub open_again :
      (c'.funded_amount ≡ 0) × (c'.status ≡ ContractStatus.open_not_funded)
      ⊎ (c'.status ≡ ContractStatus.open_partially_funded)
  pub listed : (key : Pubkey) → count key c.contributions ≡ count key (k ∷ c'.contributions)

abbrev removed : DebtContract → (funded fewer : ℕ) → List Pubkey → DebtContract
removed c funded fewer left = record c {
  funded_amount = funded;
  num_contributions = fewer;
  contributions = left;
  status =
      if funded == 0 then ContractStatus.open_not_funded else ContractStatus.open_partially_funded;
}

ok_or-some : {A : Type 0} (o : Option A) (e : StendarError) {a : A} → ok_or o e ≡ ok a → o ≡ some a
ok_or-some none e h = cc
ok_or-some (some b) e h = cc

may_withdraw_contribution-own :
    (c : DebtContract) (contribution : LenderContribution) (escrow : LenderEscrow) (k : LenderCall)
    → may_withdraw_contribution c contribution escrow k ≡ ok tt
    → (is_open c.status ≡ true) × (contribution.lender ≡ k.lender)
unfolding may_withdraw_contribution
may_withdraw_contribution-own c contribution escrow k h = ground arith

finish_removal :
    (c : DebtContract) (k : Pubkey) (amount funded fewer : ℕ) (left : List Pubkey) (now : ℤ)
    (c' : DebtContract)
    → funded + amount ≡ c.funded_amount
    → fewer + 1 ≡ c.num_contributions
    → ((key : Pubkey) → count key c.contributions ≡ count key (k ∷ left))
    → ok (update_bot_tracking (removed c funded fewer left) now) ≡ ok c'
    → IsRemoved c k amount c'
unfolding update_bot_tracking
finish_removal c k amount funded fewer left now c' hf hc hl last =
    let same : update_bot_tracking (removed c funded fewer left) now ≡ c' = cc in
    record {
      funded = rw (← same) hf;
      counted = rw (← same) hc;
      target_kept = rw (← same) refl;
      lenders_kept = rw (← same) refl;
      open_again = rw (← same) (ground arith);
      listed = λ key. rw (← same) (hl key);
    }

remove_contribution-IsRemoved :
    (c : DebtContract) (k : Pubkey) (amount : ℕ) (now : ℤ) (c' : DebtContract)
    → remove_contribution c k amount now ≡ ok c'
    → IsRemoved c k amount c'
unfolding remove_contribution
remove_contribution-IsRemoved c k amount now c' h =
    let (funded, e1, r1) =
      >>=-eq-ok (ok_or (checked_sub c.funded_amount amount) StendarError.arithmetic_overflow) _ h in
    let (fewer, e2, r2) =
      >>=-eq-ok (ok_or (checked_sub c.num_contributions 1) StendarError.arithmetic_overflow) _ r1 in
    let (left, e3, last) =
      >>=-eq-ok (ok_or (remove_key k c.contributions) StendarError.invalid_contribution) _ r2 in
    finish_removal c k amount funded fewer left now c' (ground (arith, e1)) (ground (arith, e2))
      (λ key. count-remove_key k key c.contributions left (ok_or-some _ _ e3)) last

-- The contract's own token account pays an amount to an account of the lender.
pub record IsPaidBack (r : Runtime) (l : Ledger) (c : DebtContract) (k : LenderCall) (amount : ℕ)
    (l' : Ledger) : Type 0 where
  pub lender_account : Pubkey
  pub passed : k.lender_usdc_account ≡ some lender_account
  pub of_lender : (l lender_account).owner ≡ k.lender
  pub mint : (l lender_account).mint ≡ c.loan_mint
  pub of_contract : (l c.loan_token_account).owner ≡ k.contract_key
  pub paid : r.transfer l c.loan_token_account lender_account k.contract_key amount ≡ ok l'

contract_account :
    (a b c d e f : ℕ) (x : StendarError)
    → require (a == b && c == d && e == f) x ≡ ok tt
    → (a ≡ b) × (e ≡ f)
contract_account a b c d e f x h = ground arith

lender_tests :
    (a b c d : ℕ) (x : StendarError) → require (a == b && c == d) x ≡ ok tt → (a ≡ b) × (c ≡ d)
lender_tests a b c d x h = ground arith

pay_lender-IsPaidBack :
    (r : Runtime) (l : Ledger) (c : DebtContract) (k : LenderCall) (amount : ℕ) (l' : Ledger)
    → pay_lender r l c k amount ≡ ok l'
    → IsPaidBack r l c k amount l'
unfolding pay_lender
pay_lender-IsPaidBack r l c k amount l' h =
    let (_, program, r1) =
      >>=-eq-ok (require k.token_program StendarError.missing_token_accounts) _ h in
    let (from, has_from, r2) =
      >>=-eq-ok (ok_or k.contract_usdc_account StendarError.missing_token_accounts) _ r1 in
    let (to, has_to, r3) =
      >>=-eq-ok (ok_or k.lender_usdc_account StendarError.missing_token_accounts) _ r2 in
    let (_, from_tests, r4) =
      >>=-eq-ok
        (require
          ((l from).owner == k.contract_key
            && (l from).mint == c.loan_mint
            && from == c.loan_token_account)
          StendarError.token_account_mismatch)
        _ r3 in
    let (_, to_tests, r5) =
      >>=-eq-ok
        (require ((l to).owner == k.lender && (l to).mint == c.loan_mint)
          StendarError.token_account_mismatch)
        _ r4 in
    let (_, address, paid) =
      >>=-eq-ok
        (require
          (r.find_program_address
              (Seed.text "debt_contract" ∷ Seed.key c.borrower ∷ Seed.u64_le c.contract_seed ∷ [])
            == k.contract_key)
          StendarError.invalid_contract_reference)
        _ r5 in
    let (owner, key) =
      contract_account (l from).owner k.contract_key (l from).mint c.loan_mint from
        c.loan_token_account _ from_tests in
    let (of_lender, mint) = lender_tests (l to).owner k.lender (l to).mint c.loan_mint _ to_tests in
    record {
      lender_account = to;
      passed = ok_or-some _ _ has_to;
      of_lender = of_lender;
      mint = mint;
      of_contract = rw (← key) owner;
      paid = rw (← key) paid;
    }

-- What remains when a contribution is no longer listed.
leaves_listed :
    (c c' : DebtContract) (k : Pubkey) (contribution : LenderContribution)
    (given : List (Pubkey × LenderContribution)) (key : Pubkey)
    → count key c.contributions ≡ count key (k ∷ c'.contributions)
    → count key c.contributions ≡ count key (keys_of ((k, contribution) ∷ given))
    → count key c'.contributions ≡ count key (keys_of given)
leaves_listed c c' k contribution given key e w = omega (arith, e, w)

IsRemoved-IsFunding :
    (c : DebtContract) (k : Pubkey) (contribution : LenderContribution)
    (given : List (Pubkey × LenderContribution)) (c' : DebtContract)
    → IsRemoved c k contribution.contribution_amount c'
    → IsFunding c ((k, contribution) ∷ given)
    → IsFunding c' given × (c'.num_contributions < c'.max_lenders)
IsRemoved-IsFunding c k contribution given c' done w =
    let below : c'.num_contributions < c'.max_lenders =
      omega (arith, done.counted, done.lenders_kept, w.slots) in
    (
      record {
        counted = omega (arith, done.counted, w.counted);
        listed =
            λ key. leaves_listed c c' k contribution given key (done.listed key) (w.listed key);
        funded = omega (arith, done.funded, w.funded);
        within = omega (arith, done.funded, done.target_kept, w.within);
        slots = omega (arith, below);
        full_when_taken = inl below;
      },
      below,
    )

-- A withdrawal of a contribution that succeeds, from a contract whose slots are in order and hold that
-- contribution, is the lender's and from a contract that is open. The contract's token account pays
-- the lender the contribution, and the slots stay in order without it: it is no longer counted,
-- listed or part of what is funded, while the others are, and a slot is free.
pub withdraw_contribution-IsFunding :
    (r : Runtime) (l : Ledger) (c : DebtContract) (contribution : LenderContribution)
    (escrow : LenderEscrow) (k : LenderCall) (given : List (Pubkey × LenderContribution))
    (c' : DebtContract) (l' : Ledger)
    → withdraw_contribution r l c contribution escrow k ≡ ok (c', l')
    → IsFunding c ((k.contribution_key, contribution) ∷ given)
    → IsFunding c' given
      × (c'.num_contributions < c'.max_lenders)
      × (is_open c.status ≡ true)
      × (contribution.lender ≡ k.lender)
      × IsPaidBack r l c k contribution.contribution_amount l'
unfolding withdraw_contribution
withdraw_contribution-IsFunding r l c contribution escrow k given c' l' h w =
    let amount = contribution.contribution_amount in
    let (_, may, r1) = >>=-eq-ok (may_withdraw_contribution c contribution escrow k) _ h in
    let (paid, e1, r2) = >>=-eq-ok (pay_lender r l c k amount) _ r1 in
    let (left, e2, last) =
      >>=-eq-ok (remove_contribution c k.contribution_key amount k.current_time) _ r2 in
    let (was_open, own) = may_withdraw_contribution-own c contribution escrow k may in
    let same : left ≡ c' = cc in
    let (books, below) =
      IsRemoved-IsFunding c k.contribution_key contribution given left
        (remove_contribution-IsRemoved c k.contribution_key amount k.current_time left e2) w in
    (rw same at books, rw same at below, was_open, own, pay_lender-IsPaidBack r l c k amount l' cc)
