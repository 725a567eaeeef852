-- ===== src/Ledger/Balances.antt =====
-- The balances after a transfer, also where both accounts may be one.
use native.Mathlib.Decide.{ℕ_discrete}
use stendar_l.Base.{ℕ, ◌+◌, ◌≤◌, ◌≡◌, ◌≢◌, sym, ◌∙◌, ap, arith}
use stendar_l.Error.{ok}
use stendar_l.State.Contract.{Pubkey}
use stendar_l.Ledger.{Ledger, Runtime, IsTokenProgram}

-- Accounts of two owners are two accounts.
pub owners_differ :
    (l : Ledger) (a b p q : Pubkey) → (l a).owner ≡ p → (l b).owner ≡ q → p ≢ q → a ≢ b
owners_differ l a b p q ha hb ne same = ne (sym ha ∙ ap (λ k. (l k).owner) same ∙ hb)

module _ (r : Runtime) (law : IsTokenProgram r) where
  -- No account loses more than the amount.
  pub loses_at_most :
      (l l' : Ledger) (from to by : Pubkey) (n : ℕ) (k : Pubkey)
      → r.transfer l from to by n ≡ ok l'
      → (l k).amount ≤ (l' k).amount + n
  loses_at_most l l' from to by n k h = elim (ℕ_discrete from to) [
    | yes e ↦ omega (arith, law.stays l l' to by n k (rw e at h))
    | no ne ↦ elim (ℕ_discrete k from) [
      | yes e ↦ rw e (omega (arith, law.moves l l' from to by n h ne))
      | no nf ↦ elim (ℕ_discrete k to) [
        | yes e ↦ rw e (omega (arith, law.moves l l' from to by n h ne))
        | no nt ↦ rw (law.others l l' from to by n k h nf nt) (omega arith)
      ]
    ]
  ]

  -- An account that is not the source loses nothing.
  pub gains :
      (l l' : Ledger) (from to by : Pubkey) (n : ℕ) (k : Pubkey)
      → r.transfer l from to by n ≡ ok l'
      → k ≢ from
      → (l k).amount ≤ (l' k).amount
  gains l l' from to by n k h nf = elim (ℕ_discrete k to) [
    | yes e ↦ rw e (omega (arith, law.moves l l' from to by n h (λ same. nf (e ∙ sym same))))
    | no nt ↦ rw (law.others l l' from to by n k h nf nt) (omega arith)
  ]

  -- The account that a transfer pays into loses nothing, also if it is the source.
  pub receives :
      (l l' : Ledger) (from to by : Pubkey) (n : ℕ)
      → r.transfer l from to by n ≡ ok l'
      → (l to).amount ≤ (l' to).amount
  receives l l' from to by n h = elim (ℕ_discrete from to) [
    | yes e ↦ omega (arith, law.stays l l' to by n to (rw e at h))
    | no ne ↦ omega (arith, law.moves l l' from to by n h ne)
  ]
