-- ===== src/Revolving/Facility.antt =====
-- The accounts that the instructions on a revolving contract share, and the tests at their head.
-- The global state and the treasury are the two accounts at their derived addresses, which the
-- `seeds` constraints of contexts/revolving.rs demand. A missing signature never reaches the
-- program, so a signer is a key. The build is the one without the feature `testing`.
pub mod UpToDate
use stendar_l.Base.{◌*◌, Bool, ◌&&◌, ◌||◌, List, [], ◌∷◌, ◌==◌}
use stendar_l.Base.Int.{ℤ, pos, ◌+ℤ◌}
use stendar_l.Base.Word.{u64_max, checked_add, checked_i64, saturating_i64}
use stendar_l.Error.{StendarError, Result, ok, ◌>>=◌, ◌>>◌, require, ok_or}
use stendar_l.State.Enums.{ContractStatus, status_eq}
use stendar_l.State.Contract.{Pubkey, DebtContract}
use stendar_l.State.Accounts.{PlatformState}
use stendar_l.State.Treasury.{Treasury}
use stendar_l.Utils.Scale.{require_current_version}
use stendar_l.Utils.Interest.{process_automatic_interest, checkpoint_standby_fees}
use stendar_l.Ledger.{Ledger, Accounts, Runtime, Seed}

-- One contract with the accounts around it: what an instruction reads and writes.
pub record Facility : Type 0 where
  pub contract_key : Pubkey
  pub contract : DebtContract
  pub state : PlatformState
  pub treasury_key : Pubkey
  pub treasury : Treasury
  pub tokens : Ledger
  pub accounts : Accounts

-- The keys that the caller passes for the token accounts of the borrower and of the contract, and
-- the lenders' accounts (`remaining_accounts`).
pub record Caller : Type 0 where
  pub signer : Pubkey
  pub borrower_usdc_account : Pubkey
  pub contract_usdc_account : Pubkey
  pub remaining_accounts : List Pubkey

-- `require_revolving_contract`
unfoldable pub require_revolving_contract : DebtContract → Result (Unit {0})
require_revolving_contract c = require c.is_revolving StendarError.revolving_not_enabled

-- `can_sweep_contract_pool`
unfoldable pub can_sweep_contract_pool : ContractStatus → Bool
can_sweep_contract_pool s =
    status_eq s ContractStatus.completed || status_eq s ContractStatus.liquidated

-- The three version tests at the head of the instructions.
unfoldable pub require_versions : Facility → Result (Unit {0})
require_versions f = do
  require_current_version f.contract.account_version
  require_current_version f.state.account_version
  require_current_version f.treasury.account_version

-- `has_one = borrower` and the key of the contract's token account, of the `Accounts` structs.
unfoldable pub require_borrower : Facility → Caller → Result (Unit {0})
require_borrower f c = require (f.contract.borrower == c.signer) StendarError.unauthorized_payment

unfoldable pub require_contract_account : Facility → Caller → Result (Unit {0})
require_contract_account f c =
    require (c.contract_usdc_account == f.contract.loan_token_account)
      StendarError.token_account_mismatch

-- `account.owner == owner && account.mint == contract.loan_mint`
unfoldable pub require_token_account : Facility → Pubkey → Pubkey → Result (Unit {0})
require_token_account f k owner =
    require ((f.tokens k).owner == owner && (f.tokens k).mint == f.contract.loan_mint)
      StendarError.token_account_mismatch

-- The derived address of the contract is its key; it signs for the contract's tokens.
unfoldable pub require_contract_address : Runtime → Facility → Result (Unit {0})
require_contract_address r f =
    require
      (r.find_program_address (
          Seed.text "debt_contract"
          ∷ Seed.key f.contract.borrower
          ∷ Seed.u64_le f.contract.contract_seed
          ∷ [])
        == f.contract_key)
      StendarError.invalid_contract_reference

-- The end of the term.
unfoldable pub maturity : DebtContract → Result ℤ
maturity c =
    ok_or (checked_i64 (c.created_at +ℤ saturating_i64 (pos (c.term_days * (24 * 60 * 60)))))
      StendarError.arithmetic_overflow

-- The block `checkpoint_standby_fees(contract, now)?; process_automatic_interest(contract, now)?`,
-- which brings a contract up to the present in four of the instructions.
unfoldable pub bring_up_to_date : DebtContract → ℤ → Result DebtContract
bring_up_to_date c now = do
  checkpointed ← checkpoint_standby_fees c now
  process_automatic_interest checkpointed now

-- The bot's counters in the treasury after one more automated operation.
unfoldable pub count_operation : Treasury → ℤ → Result Treasury
count_operation t now = do
  operations ← ok_or (checked_add u64_max t.automated_operations 1) StendarError.arithmetic_overflow
  processed ←
      ok_or (checked_add u64_max t.total_contracts_processed 1) StendarError.arithmetic_overflow
  ok (record t {
    automated_operations = operations;
    total_contracts_processed = processed;
    last_update = now;
  })
