-- ===== src/Lending/Funding/Slots.antt =====
-- The slots of a contract's lenders (`finalize_contribution_to_contract`): who has contributed, how
-- much the contributions come to, and that the lender in the last slot fills what remains.
use stendar_l.Base.{ℕ, ◌+◌, ◌≤◌, ◌<◌, ◌≡◌, ◌≢◌, ◌⊎◌, arith, true, refl, List, [], ◌∷◌, ◌++◌, leb}
use stendar_l.Base.Keys.{length, count}
use stendar_l.Base.Word.{u32_max, u64_max, checked_add}
use stendar_l.Error.{StendarError, ok, ok_or, require, >>=-eq-ok}
use stendar_l.State.Enums.{is_open}
use stendar_l.State.Contract.{Pubkey, DebtContract}
use stendar_l.State.Accounts.{LenderContribution}
use stendar_l.Lending.{is_partial_funding_enabled, validate_not_self_funding}
use stendar_l.Lending.Funding.{
  Offering, Funded, may_contribute, check_amount, check_last_slot, check_whole,
  finalize_contribution_to_contract,
}

-- The sum of the contributions, each with the key of its account.
abbrev pub sum_of : List (Pubkey × LenderContribution) → ℕ
sum_of [] = 0
sum_of (x ∷ xs) = x.1.contribution_amount + sum_of xs

abbrev pub keys_of : List (Pubkey × LenderContribution) → List Pubkey
keys_of [] = []
keys_of (x ∷ xs) = x.0 ∷ keys_of xs

-- A contract with its contributions, in any order: it lists the key of each as often as it occurs, and
-- no other; they are as many as it counts and come to what is funded, which is within the target; and
-- a contract whose slots are all taken is full.
pub record IsFunding (c : DebtContract) (given : List (Pubkey × LenderContribution)) : Type 0 where
  pub counted : c.num_contributions ≡ length (keys_of given)
  pub listed : (key : Pubkey) → count key c.contributions ≡ count key (keys_of given)
  pub funded : c.funded_amount ≡ sum_of given
  pub within : c.funded_amount ≤ c.target_amount
  pub slots : c.num_contributions ≤ c.max_lenders
  pub full_when_taken : (c.num_contributions < c.max_lenders) ⊎ (c.funded_amount ≡ c.target_amount)

-- What a contribution that succeeds does.
pub record IsContributed (c : DebtContract) (o : Offering) (f : Funded) : Type 0 where
  pub open_before : is_open c.status ≡ true
  pub not_self : o.lender_key ≢ c.borrower
  pub positive : 0 < o.amount
  pub slot : c.num_contributions < c.max_lenders
  pub funded : f.contract.funded_amount ≡ c.funded_amount + o.amount
  pub within : f.contract.funded_amount ≤ c.target_amount
  pub counted : f.contract.num_contributions ≡ c.num_contributions + 1
  pub listed : f.contract.contributions ≡ c.contributions ++ (o.contribution_key ∷ [])
  pub last_fills :
      (f.contract.num_contributions < c.max_lenders) ⊎ (f.contract.funded_amount ≡ c.target_amount)
  pub target_kept : f.contract.target_amount ≡ c.target_amount
  pub lenders_kept : f.contract.max_lenders ≡ c.max_lenders
  pub borrower_kept : f.contract.borrower ≡ c.borrower
  pub revolving_kept : f.contract.is_revolving ≡ c.is_revolving
  pub vault_kept : f.contract.loan_token_account ≡ c.loan_token_account
  pub status_kept : f.contract.status ≡ c.status
  pub amount : f.contribution.contribution_amount ≡ o.amount
  pub lender : f.contribution.lender ≡ o.lender_key
  pub version : f.contribution.account_version ≡ 1
  pub owed_nothing :
      (f.escrow.escrow_amount ≡ 0)
      × (f.escrow.available_interest ≡ 0)
      × (f.escrow.available_principal ≡ 0)

record IsOpenFor (c : DebtContract) (o : Offering) : Type 0 where
  pub open_before : is_open c.status ≡ true
  pub not_self : o.lender_key ≢ c.borrower
  pub positive : 0 < o.amount
  pub slot : c.num_contributions < c.max_lenders

may_contribute-IsOpenFor :
    (c : DebtContract) (contribution : LenderContribution) (o : Offering)
    → may_contribute c contribution o ≡ ok tt
    → IsOpenFor c o
unfolding may_contribute validate_not_self_funding
may_contribute-IsOpenFor c contribution o h = ground arith

-- The amount fills what remains, if the slot is the last or the only one.
check_amount-fills :
    (c : DebtContract) (amount : ℕ)
    → check_amount c amount ≡ ok tt
    → (c.num_contributions + 1 < c.max_lenders) ⊎ (c.funded_amount + amount ≡ c.target_amount)
unfolding check_amount check_last_slot check_whole is_partial_funding_enabled
check_amount-fills c amount h = ground arith

-- A contribution that succeeds is of another one than the borrower, to an open contract with a free
-- slot; it takes the slot and adds the amount, within the target. If it takes the last slot, the
-- contract is full, and if partial funding is disabled, it is full in any case.
pub finalize_contribution-IsContributed :
    (c : DebtContract) (contribution : LenderContribution) (o : Offering) (f : Funded)
    → finalize_contribution_to_contract c contribution o ≡ ok f
    → IsContributed c o f
unfolding finalize_contribution_to_contract
finalize_contribution-IsContributed c contribution o f h =
    let (_, may, r1) = >>=-eq-ok (may_contribute c contribution o) _ h in
    let (_, amount, r2) = >>=-eq-ok (check_amount c o.amount) _ r1 in
    let (funded, added, r3) =
      >>=-eq-ok
        (ok_or (checked_add u64_max c.funded_amount o.amount) StendarError.arithmetic_overflow) _
        r2 in
    let (_, within, r4) =
      >>=-eq-ok (require (leb funded c.target_amount) StendarError.exceeds_target_amount) _ r3 in
    let (count, counted, last) =
      >>=-eq-ok (ok_or (checked_add u32_max c.num_contributions 1) StendarError.arithmetic_overflow)
        _ r4 in
    let admitted = may_contribute-IsOpenFor c contribution o may in
    let fills = check_amount-fills c o.amount amount in ground (arith, admitted, fills)

count-snoc : (j : ℕ) (xs : List ℕ) (x : ℕ) → count j (xs ++ (x ∷ [])) ≡ count j (x ∷ xs)
count-snoc j [] x = refl
count-snoc j (y ∷ ys) x = omega (arith, count-snoc j ys x)

-- A contribution that succeeds keeps the slots in order: the new contribution is counted, its key is
-- listed and its amount part of what is funded, beside what was there, and once all slots are taken
-- the contract is full.
pub finalize_contribution-IsFunding :
    (c : DebtContract) (contribution : LenderContribution) (o : Offering) (f : Funded)
    (given : List (Pubkey × LenderContribution))
    → finalize_contribution_to_contract c contribution o ≡ ok f
    → IsFunding c given
    → IsFunding f.contract ((o.contribution_key, f.contribution) ∷ given)
finalize_contribution-IsFunding c contribution o f given h w =
    let done = finalize_contribution-IsContributed c contribution o f h in
    record {
      counted = omega (arith, done.counted, w.counted);
      listed = λ key.
          rw done.listed
            (omega (arith, count-snoc key c.contributions o.contribution_key, w.listed key));
      funded = omega (arith, done.funded, done.amount, w.funded);
      within = omega (arith, done.within, done.target_kept);
      slots = omega (arith, done.counted, done.slot, done.lenders_kept);
      full_when_taken = ground (arith, done.last_fills, done.target_kept, done.lenders_kept);
    }
