-- ===== src/Pools/Fees.antt =====
-- The fees of a pool (`transfer_yield_fee` of programs/stendar/src/instructions/pools.rs, and the
-- fee of a deposit): the frontend that the deposit names has its share, the treasury the rest.
pub mod Steps
pub mod Payees
use stendar_l.Base.{ℕ, ltb, Option, none, some, ◌==◌, if◌then◌else◌}
use stendar_l.Base.Word.{u64_max, checked_add, checked_sub}
use stendar_l.Error.{StendarError, Result, ok, ◌>>=◌, ◌>>◌, require, ok_or}
use stendar_l.State.Contract.{Pubkey, default_key}
use stendar_l.State.Treasury.{Treasury}
use stendar_l.Utils.Fees.{calculate_frontend_share}
use stendar_l.Ledger.{Ledger, Runtime}

-- The share of the frontend whose token account is passed, and that account.
unfoldable pub frontend_share_of : Ledger → ℕ → Pubkey → Pubkey → Option Pubkey → Result ℕ
frontend_share_of tokens fee stored_frontend loan_mint none = ok 0
frontend_share_of tokens fee stored_frontend loan_mint (some ata) =
    if stored_frontend == default_key then ok 0 else (do
      require ((tokens ata).owner == stored_frontend) StendarError.frontend_token_account_mismatch
      require ((tokens ata).mint == loan_mint) StendarError.token_account_mismatch
      calculate_frontend_share fee)

unfoldable pub frontend_account : Option Pubkey → Result Pubkey
frontend_account ata = ok_or ata StendarError.missing_token_accounts

-- The two transfers of a fee that is shared, and what the treasury received.
unfoldable pub transfer_shares :
    Runtime
    → Ledger
    → (from by : Pubkey) → (fee frontend_share : ℕ) → (treasury_account : Pubkey) → Option Pubkey
    → Result (ℕ × Ledger)
unfolding frontend_account
transfer_shares r tokens from by fee frontend_share treasury_account ata = do
  frontend_ata ← frontend_account ata
  treasury_share ← ok_or (checked_sub fee frontend_share) StendarError.arithmetic_overflow
  tokens' ← r.transfer tokens from treasury_account by treasury_share
  tokens'' ← r.transfer tokens' from frontend_ata by frontend_share
  ok (treasury_share, tokens'')

unfoldable pub transfer_whole :
    Runtime
    → Ledger
    → (from by : Pubkey) → (fee : ℕ) → (treasury_account : Pubkey) → Result (ℕ × Ledger)
transfer_whole r tokens from by fee treasury_account = do
  tokens' ← r.transfer tokens from treasury_account by fee
  ok (fee, tokens')

-- The transfers of a fee, and what the treasury received (`transfer_yield_fee`). A deposit's fee is
-- split the same way, from the depositor's account.
unfoldable pub transfer_fee :
    Runtime
    → Ledger
    → (from by : Pubkey) → (fee : ℕ) → (stored_frontend loan_mint treasury_account : Pubkey)
    → Option Pubkey
    → Result (ℕ × Ledger)
unfolding frontend_share_of transfer_shares transfer_whole
transfer_fee r tokens from by fee stored_frontend loan_mint treasury_account ata = do
  frontend_share ← frontend_share_of tokens fee stored_frontend loan_mint ata
  if ltb 0 frontend_share
      then transfer_shares r tokens from by fee frontend_share treasury_account ata
      else transfer_whole r tokens from by fee treasury_account

-- A fee that is due is transferred, and the treasury counts what it received.
unfoldable pub collect_fee :
    Runtime
    → Ledger
    → Treasury
    → (from by : Pubkey) → (fee : ℕ) → (stored_frontend loan_mint treasury_account : Pubkey)
    → Option Pubkey
    → Result (Treasury × Ledger)
unfolding transfer_fee
collect_fee r tokens treasury from by fee stored_frontend loan_mint treasury_account ata =
    if ltb 0 fee
    then (do
      received ← transfer_fee r tokens from by fee stored_frontend loan_mint treasury_account ata
      collected ←
          ok_or (checked_add u64_max treasury.fees_collected received.0)
            StendarError.arithmetic_overflow
      ok (record treasury { fees_collected = collected }, received.1))
    else ok (treasury, tokens)
