-- ===== src/Pools/Fees/Payees.antt =====
-- To whom a fee of a pool goes (`transfer_yield_fee` of programs/stendar/src/instructions/pools.rs).
use stendar_l.Base.{ℕ, ◌+◌, ◌≡◌, ◌≢◌, ◌⊎◌, inl, inr, refl, arith, Option, none, some}
use stendar_l.Error.{ok}
use stendar_l.State.Contract.{Pubkey, default_key}
use stendar_l.State.Treasury.{Treasury}
use stendar_l.Utils.Fees.{calculate_frontend_share}
use stendar_l.Ledger.{Ledger, Runtime}
use stendar_l.Pools.Fees.{transfer_fee, collect_fee}
use stendar_l.Pools.Fees.Steps.{
  collecting, share_cases, transfer_shares-eq, transfer_whole-eq, transfer_cases, collect_cases,
}

-- No frontend has a share: its account is not passed, the deposit names none, or the share is zero.
abbrev pub NoFrontend : ℕ → Pubkey → Option Pubkey → Type 0
NoFrontend fee stored_frontend ata =
    (ata ≡ none) ⊎ (stored_frontend ≡ default_key) ⊎ (calculate_frontend_share fee ≡ ok 0)

-- A fee as it is paid by an authority from an account.
pub data FeePaid (r : Runtime) (tokens : Ledger) (treasury : Treasury) (from by : Pubkey) (fee : ℕ)
    (stored_frontend loan_mint treasury_account : Pubkey) (ata : Option Pubkey)
    (treasury' : Treasury) (tokens' : Ledger) : Type 0 where
  no_fee :
      fee ≡ 0
      → treasury' ≡ treasury
      → tokens' ≡ tokens
      → FeePaid r tokens treasury from by fee stored_frontend loan_mint treasury_account ata
          treasury' tokens'
  to_treasury :
      NoFrontend fee stored_frontend ata
      → r.transfer tokens from treasury_account by fee ≡ ok tokens'
      → treasury' ≡ collecting treasury fee
      → FeePaid r tokens treasury from by fee stored_frontend loan_mint treasury_account ata
          treasury' tokens'
  shared :
      (frontend : Pubkey) (share rest : ℕ) (between : Ledger)
      → ata ≡ some frontend
      → stored_frontend ≢ default_key
      → (tokens frontend).owner ≡ stored_frontend
      → (tokens frontend).mint ≡ loan_mint
      → calculate_frontend_share fee ≡ ok share
      → rest + share ≡ fee
      → r.transfer tokens from treasury_account by rest ≡ ok between
      → r.transfer between from frontend by share ≡ ok tokens'
      → treasury' ≡ collecting treasury rest
      → FeePaid r tokens treasury from by fee stored_frontend loan_mint treasury_account ata
          treasury' tokens'

-- The treasury takes the whole fee.
no_frontend :
    (fee share : ℕ) (stored_frontend : Pubkey) (ata : Option Pubkey)
    → share ≡ 0
    → (ata ≡ none) ⊎ (stored_frontend ≡ default_key) ⊎ (calculate_frontend_share fee ≡ ok share)
    → NoFrontend fee stored_frontend ata
no_frontend fee share stored_frontend ata z (inl e) = inl e
no_frontend fee share stored_frontend ata z (inr (inl e)) = inr (inl e)
no_frontend fee share stored_frontend ata z (inr (inr e)) = inr (inr (rw (← z) e))

transfer_fee-FeePaid :
    (r : Runtime) (tokens : Ledger) (treasury : Treasury) (from by : Pubkey) (fee : ℕ)
    (stored_frontend loan_mint treasury_account : Pubkey) (ata : Option Pubkey) (received : ℕ)
    (tokens' : Ledger)
    → transfer_fee r tokens from by fee stored_frontend loan_mint treasury_account ata
      ≡ ok (received, tokens')
    → FeePaid r tokens treasury from by fee stored_frontend loan_mint treasury_account ata
        (collecting treasury received)
        tokens'
transfer_fee-FeePaid r tokens treasury from by fee stored_frontend loan_mint treasury_account ata
      received tokens' h =
    let (share, part, run) =
      transfer_cases r tokens from by fee stored_frontend loan_mint treasury_account ata received
        tokens' h in
    elim (share_cases tokens fee stored_frontend loan_mint ata share part) [
      | inl (z, why) ↦ elim run [
        | inl (positive, shares) ↦ absurd (omega (arith, z, positive))
        | inr (zero_share, whole) ↦
            let (all, paid) =
              transfer_whole-eq r tokens from by fee treasury_account received tokens' whole in
            FeePaid.to_treasury
              (elim why [
                | inl e ↦ no_frontend fee share stored_frontend ata z (inl e)
                | inr e ↦ no_frontend fee share stored_frontend ata z (inr (inl e))
              ])
              paid (rw all refl)
      ]
      | inr (frontend, passed, named, owner, mint, part_of) ↦ elim run [
        | inl (positive, shares) ↦
            let (sum, (between, first, second)) =
              transfer_shares-eq r tokens from by fee share treasury_account frontend received
                tokens' (rw passed at shares) in
            FeePaid.shared frontend share received between passed named owner mint part_of sum first
              second refl
        | inr (zero_share, whole) ↦
            let (all, paid) =
              transfer_whole-eq r tokens from by fee treasury_account received tokens' whole in
            FeePaid.to_treasury
              (no_frontend fee share stored_frontend ata zero_share (inr (inr part_of))) paid
              (rw all refl)
      ]
    ]

-- A fee that is collected is paid to the treasury and the frontend, and nobody else.
pub collect_fee-FeePaid :
    (r : Runtime) (tokens : Ledger) (treasury : Treasury) (from by : Pubkey) (fee : ℕ)
    (stored_frontend loan_mint treasury_account : Pubkey) (ata : Option Pubkey)
    (treasury' : Treasury) (tokens' : Ledger)
    → collect_fee r tokens treasury from by fee stored_frontend loan_mint treasury_account ata
      ≡ ok (treasury', tokens')
    → FeePaid r tokens treasury from by fee stored_frontend loan_mint treasury_account ata treasury'
        tokens'
collect_fee-FeePaid r tokens treasury from by fee stored_frontend loan_mint treasury_account ata
      treasury' tokens' h =
    elim (collect_cases r tokens treasury from by fee stored_frontend loan_mint treasury_account ata
      treasury' tokens' h) [
        | inl (z, same, still) ↦ FeePaid.no_fee z same still
        | inr (received, run, counted) ↦ rw counted (
            transfer_fee-FeePaid r tokens treasury from by fee stored_frontend loan_mint
              treasury_account ata received tokens' run)
      ]
