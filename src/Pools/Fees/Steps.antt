-- ===== src/Pools/Fees/Steps.antt =====
-- The steps of the collection of a fee (`transfer_yield_fee` of
-- programs/stendar/src/instructions/pools.rs).
use native.Mathlib.Decide.{ℕ_discrete}
use stendar_l.Base.{
  ℕ, ◌+◌, ◌<◌, ◌≡◌, ◌≢◌, ◌⊎◌, inl, inr, refl, ltb, Bool-cases, arith, Option, none, some,
}
use stendar_l.Base.Word.{u64_max, checked_add, checked_sub}
use stendar_l.Error.{StendarError, Result, ok, ok_or, ◌>>=◌, >>=-eq-ok}
use stendar_l.State.Contract.{Pubkey, default_key}
use stendar_l.State.Treasury.{Treasury}
use stendar_l.Utils.Fees.{calculate_frontend_share}
use stendar_l.Ledger.{Ledger, Runtime}
use stendar_l.Pools.Fees.{
  frontend_share_of, frontend_account, transfer_shares, transfer_whole, transfer_fee, collect_fee,
}

-- The treasury counts what it receives, and nothing else of it changes.
abbrev pub collecting : Treasury → ℕ → Treasury
collecting treasury received = record treasury {
  fees_collected = treasury.fees_collected + received;
}

pub share_cases :
    (tokens : Ledger) (fee : ℕ) (stored_frontend loan_mint : Pubkey) (ata : Option Pubkey)
    (share : ℕ)
    → frontend_share_of tokens fee stored_frontend loan_mint ata ≡ ok share
    → (share ≡ 0) × ((ata ≡ none) ⊎ (stored_frontend ≡ default_key))
      ⊎ ((frontend : Pubkey) × (ata ≡ some frontend)
          × (stored_frontend ≢ default_key)
          × ((tokens frontend).owner ≡ stored_frontend)
          × ((tokens frontend).mint ≡ loan_mint)
          × (calculate_frontend_share fee ≡ ok share))
unfolding frontend_share_of
share_cases tokens fee stored_frontend loan_mint none share h = ground arith
share_cases tokens fee stored_frontend loan_mint (some ata) share h =
    elim (ℕ_discrete stored_frontend default_key) [
      | yes e ↦ inl (ground (arith, e), inr e)
      | no ne ↦ inr (ata, refl, ne, ground (arith, ne), ground (arith, ne), ground (arith, ne))
    ]

pub transfer_shares-eq :
    (r : Runtime) (tokens : Ledger) (from by : Pubkey) (fee share : ℕ) (treasury_account : Pubkey)
    (frontend : Pubkey) (received : ℕ) (tokens' : Ledger)
    → transfer_shares r tokens from by fee share treasury_account (some frontend)
      ≡ ok (received, tokens')
    → (received + share ≡ fee)
      × ((between : Ledger) × (r.transfer tokens from treasury_account by received ≡ ok between)
          × (r.transfer between from frontend by share ≡ ok tokens'))
unfolding transfer_shares frontend_account
transfer_shares-eq r tokens from by fee share treasury_account frontend received tokens' h =
    let (rest, left, r1) =
      >>=-eq-ok (ok_or (checked_sub fee share) StendarError.arithmetic_overflow) _ h in
    let (between, first, r2) = >>=-eq-ok (r.transfer tokens from treasury_account by rest) _ r1 in
    let (after, second, last) = >>=-eq-ok (r.transfer between from frontend by share) _ r2 in
    let same : rest ≡ received = cc in
    (ground (arith, left, same), (between, rw (← same) first, cc))

pub transfer_whole-eq :
    (r : Runtime) (tokens : Ledger) (from by : Pubkey) (fee : ℕ) (treasury_account : Pubkey)
    (received : ℕ) (tokens' : Ledger)
    → transfer_whole r tokens from by fee treasury_account ≡ ok (received, tokens')
    → (received ≡ fee) × (r.transfer tokens from treasury_account by fee ≡ ok tokens')
unfolding transfer_whole
transfer_whole-eq r tokens from by fee treasury_account received tokens' h =
    let (after, paid, last) = >>=-eq-ok (r.transfer tokens from treasury_account by fee) _ h in
    (cc, cc)

pub transfer_cases :
    (r : Runtime) (tokens : Ledger) (from by : Pubkey) (fee : ℕ)
    (stored_frontend loan_mint treasury_account : Pubkey) (ata : Option Pubkey) (received : ℕ)
    (tokens' : Ledger)
    → transfer_fee r tokens from by fee stored_frontend loan_mint treasury_account ata
      ≡ ok (received, tokens')
    → (share : ℕ) × (frontend_share_of tokens fee stored_frontend loan_mint ata ≡ ok share)
      × ((0 < share)
            × (transfer_shares r tokens from by fee share treasury_account ata
                ≡ ok (received, tokens'))
          ⊎ (share ≡ 0)
            × (transfer_whole r tokens from by fee treasury_account ≡ ok (received, tokens')))
unfolding transfer_fee
transfer_cases r tokens from by fee stored_frontend loan_mint treasury_account ata received tokens'
      h =
    let (share, part, rest) =
      >>=-eq-ok (frontend_share_of tokens fee stored_frontend loan_mint ata) _ h in
    elim (Bool-cases (ltb 0 share)) [
      | inl e ↦ (share, part, inl (ground (arith, e), ground (arith, e)))
      | inr e ↦ (share, part, inr (ground (arith, e), ground (arith, e)))
    ]

-- A fee that is due.
abbrev collect_due :
    Runtime
    → Ledger
    → Treasury
    → (from by : Pubkey) → (fee : ℕ) → (stored_frontend loan_mint treasury_account : Pubkey)
    → Option Pubkey
    → Result (Treasury × Ledger)
collect_due r tokens treasury from by fee stored_frontend loan_mint treasury_account ata = do
  received ← transfer_fee r tokens from by fee stored_frontend loan_mint treasury_account ata
  collected ←
      ok_or (checked_add u64_max treasury.fees_collected received.0)
        StendarError.arithmetic_overflow
  ok (record treasury { fees_collected = collected }, received.1)

collect_due-eq :
    (r : Runtime) (tokens : Ledger) (treasury : Treasury) (from by : Pubkey) (fee : ℕ)
    (stored_frontend loan_mint treasury_account : Pubkey) (ata : Option Pubkey)
    (treasury' : Treasury) (tokens' : Ledger)
    → collect_due r tokens treasury from by fee stored_frontend loan_mint treasury_account ata
      ≡ ok (treasury', tokens')
    → (received : ℕ) × (transfer_fee r tokens from by fee stored_frontend loan_mint treasury_account
          ata
        ≡ ok (received, tokens'))
      × (treasury' ≡ collecting treasury received)
collect_due-eq r tokens treasury from by fee stored_frontend loan_mint treasury_account ata
      treasury' tokens' h =
    let (received, run, rest) =
      >>=-eq-ok (transfer_fee r tokens from by fee stored_frontend loan_mint treasury_account ata) _
        h in
    let (collected, sum, last) =
      >>=-eq-ok
        (ok_or (checked_add u64_max treasury.fees_collected received.0)
          StendarError.arithmetic_overflow)
        _ rest in
    let total : collected ≡ treasury.fees_collected + received.0 = ground (arith, sum) in
    (received.0, cc, rw (← total) cc)

pub collect_cases :
    (r : Runtime) (tokens : Ledger) (treasury : Treasury) (from by : Pubkey) (fee : ℕ)
    (stored_frontend loan_mint treasury_account : Pubkey) (ata : Option Pubkey)
    (treasury' : Treasury) (tokens' : Ledger)
    → collect_fee r tokens treasury from by fee stored_frontend loan_mint treasury_account ata
      ≡ ok (treasury', tokens')
    → (fee ≡ 0) × (treasury' ≡ treasury) × (tokens' ≡ tokens)
      ⊎ ((received : ℕ) × (transfer_fee r tokens from by fee stored_frontend loan_mint
              treasury_account ata
            ≡ ok (received, tokens'))
          × (treasury' ≡ collecting treasury received))
unfolding collect_fee
collect_cases r tokens treasury from by fee stored_frontend loan_mint treasury_account ata treasury'
      tokens' h =
    elim (Bool-cases (ltb 0 fee)) [
      | inl e ↦ inr (
          collect_due-eq r tokens treasury from by fee stored_frontend loan_mint treasury_account
            ata treasury' tokens' (ground (arith, e)))
      | inr e ↦ inl (ground (arith, e), ground (arith, e), ground (arith, e))
    ]
