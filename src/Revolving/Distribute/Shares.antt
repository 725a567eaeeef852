-- ===== src/Revolving/Distribute/Shares.antt =====
-- How much the rounds of a distribution pay out (`distribute_standby_fees`).
use stendar_l.Base.{ℕ, ◌+◌, ◌≤◌, ◌≡◌, ◌∙◌, ◌⊎◌, arith, inl, inr, List, [], ◌∷◌, Option, none, some}
use stendar_l.Base.Keys.{remove_key}
use stendar_l.Base.Word.{u64_max, checked_add}
use stendar_l.Error.{StendarError, ok, ok_or, >>=-eq-ok}
use stendar_l.State.Contract.{Pubkey}
use stendar_l.State.Accounts.{LenderContribution, LenderEscrow}
use stendar_l.Ledger.{Runtime, Ledger, Accounts, IsTokenProgram}
use stendar_l.Ledger.Balances.{loses_at_most}
use stendar_l.Revolving.Distribute.{
  Distribution, Progress, lender_share, pay_share, read_lender, distribute_one,
}

-- The amount of a contribution account, 0 if it is none.
abbrev pub amount_at : Option LenderContribution → ℕ
amount_at none = 0
amount_at (some c) = c.contribution_amount

-- The contributions behind the accounts that a distribution is given, three for each lender.
unfoldable pub contributed : (Pubkey → Option LenderContribution) → List Pubkey → ℕ
contributed at [] = 0
contributed at (k ∷ []) = 0
contributed at (k ∷ e ∷ []) = 0
contributed at (k ∷ e ∷ u ∷ infos) = amount_at (at k) + contributed at infos

read_lender-contribution :
    (r : Runtime) (d : Distribution) (a : Accounts) (tokens : Ledger) (k e u : Pubkey)
    (c : LenderContribution) (escrow : LenderEscrow)
    → read_lender r d a tokens k e u ≡ ok (c, escrow)
    → a.contribution_at k ≡ some c
unfolding read_lender
read_lender-contribution r d a tokens k e u c escrow h = ground arith

module _ (r : Runtime) (law : IsTokenProgram r) (d : Distribution) where
  pay_share-keeps :
      (s : Progress) (e u : Pubkey) (escrow : LenderEscrow) (share : ℕ) (s' : Progress)
      → pay_share r d s e u escrow share ≡ ok s'
      → (s'.distributed_standby ≡ s.distributed_standby)
        × (s'.remaining_contributions ≡ s.remaining_contributions)
  unfolding pay_share
  pay_share-keeps s e u escrow share s' h = ground arith

  pay_share-transfer :
      (s : Progress) (e u : Pubkey) (escrow : LenderEscrow) (share : ℕ) (s' : Progress)
      → pay_share r d s e u escrow share ≡ ok s'
      → (s'.tokens ≡ s.tokens)
        ⊎ (r.transfer s.tokens d.contract_usdc_account u d.contract_key share ≡ ok s'.tokens)
  unfolding pay_share
  pay_share-transfer s e u escrow share s' h = ground arith

  pay_share-contributions :
      (s : Progress) (e u : Pubkey) (escrow : LenderEscrow) (share : ℕ) (s' : Progress)
      → pay_share r d s e u escrow share ≡ ok s'
      → s'.accounts.contribution_at ≡ s.accounts.contribution_at
  unfolding pay_share
  pay_share-contributions s e u escrow share s' h = ground arith

  -- One round that succeeded, for the share that it paid.
  pub record Round (index : ℕ) (k e u : Pubkey) (s s' : Progress) (share : ℕ) : Type 0 where
    pub paid : s'.distributed_standby ≡ s.distributed_standby + share
    pub same_contributions : s'.accounts.contribution_at ≡ s.accounts.contribution_at
    pub at_most : (v : Pubkey) → (s.tokens v).amount ≤ (s'.tokens v).amount + share
    pub by_contribution :
        lender_share d index (amount_at (s.accounts.contribution_at k)) s.distributed_standby
        ≡ ok share

  added :
      (a b total : ℕ)
      → ok_or (checked_add u64_max a b) StendarError.arithmetic_overflow ≡ ok total
      → total ≡ a + b
  added a b total h = ground arith

  round_paid :
      (s s' : Progress) (rest : List Pubkey) (e u : Pubkey) (escrow : LenderEscrow)
      (share distributed : ℕ)
      → distributed ≡ s.distributed_standby + share
      → pay_share r d
          (record s { remaining_contributions = rest; distributed_standby = distributed })
          e
          u
          escrow
          share
        ≡ ok s'
      → (v : Pubkey) → (s.tokens v).amount ≤ (s'.tokens v).amount + share
  round_paid s s' rest e u escrow share distributed sum h v =
      elim (pay_share-transfer _ e u escrow share s' h) [
        | inl same ↦ rw same (omega arith)
        | inr moved ↦
            loses_at_most r law s.tokens s'.tokens d.contract_usdc_account u d.contract_key share v
              moved
      ]

  pub distribute_one-Round :
      (index : ℕ) (k e u : Pubkey) (s s' : Progress)
      → distribute_one r d index k e u s ≡ ok s'
      → (share : ℕ) × Round index k e u s s' share
  unfolding distribute_one
  distribute_one-Round index k e u s s' h =
      let (rest, p, h1) =
        >>=-eq-ok (ok_or (remove_key k s.remaining_contributions) StendarError.invalid_contribution)
          _ h in
      let (lender, q, h2) = >>=-eq-ok (read_lender r d s.accounts s.tokens k e u) _ h1 in
      let (share, w, h3) =
        >>=-eq-ok (lender_share d index (lender.0).contribution_amount s.distributed_standby) _
          h2 in
      let (total, x, h4) =
        >>=-eq-ok
          (ok_or (checked_add u64_max s.distributed_standby share) StendarError.arithmetic_overflow)
          _ h3 in
      let sum = added s.distributed_standby share total x in
      let found = read_lender-contribution r d s.accounts s.tokens k e u (lender.0) (lender.1) q in
      (
        share,
        record {
          paid = (pay_share-keeps _ e u (lender.1) share s' h4).0 ∙ sum;
          same_contributions = pay_share-contributions _ e u (lender.1) share s' h4;
          at_most = round_paid s s' rest e u (lender.1) share total sum h4;
          by_contribution = rw found w;
        },
      )
