-- ===== src/Revolving/Pairs.antt =====
-- `require_revolving_contribution_pairs` of programs/stendar/src/instructions/revolving.rs: the
-- accounts passed with a call are the contribution and escrow of every lender, each once.
pub mod Complete
use stendar_l.Base.{◌&&◌, List, [], ◌∷◌, ◌==◌}
use stendar_l.Base.Keys.{length, is_empty, remove_key}
use stendar_l.Base.Word.{u64_max, checked_mul}
use stendar_l.Error.{StendarError, Result, ok, err, ◌>>=◌, ◌>>◌, require, ok_or}
use stendar_l.State.Contract.{Pubkey}
use stendar_l.State.Accounts.{LenderContribution, LenderEscrow}
use stendar_l.Utils.Scale.{require_current_version}
use stendar_l.Ledger.{Accounts, Runtime, Seed}

-- The tests on one contribution account, which is deserialized on the way.
unfoldable pub read_contribution : Runtime → Accounts → Pubkey → Pubkey → Result LenderContribution
read_contribution r a contract_key k = do
  contribution ← ok_or (a.contribution_at k) StendarError.invalid_contribution
  require_current_version contribution.account_version
  require (contribution.contract == contract_key) StendarError.invalid_contribution
  require
      (k
        == r.find_program_address
            (Seed.text "contribution" ∷ Seed.key contract_key ∷ Seed.key contribution.lender ∷ []))
      StendarError.invalid_contribution
  ok contribution

-- The derived address of a lender's escrow.
abbrev pub escrow_address : Runtime → Pubkey → Pubkey → Pubkey
escrow_address r contract_key lender =
    r.find_program_address (Seed.text "escrow" ∷ Seed.key contract_key ∷ Seed.key lender ∷ [])

-- The tests on one escrow account against the lender.
unfoldable pub read_escrow : Accounts → Pubkey → Pubkey → Pubkey → Result LenderEscrow
read_escrow a contract_key lender k = do
  escrow ← ok_or (a.escrow_at k) StendarError.invalid_contribution
  require_current_version escrow.account_version
  require (escrow.contract == contract_key) StendarError.invalid_contribution
  require (escrow.lender == lender) StendarError.unauthorized_claim
  ok escrow

-- Both accounts of a pair belong to the program.
abbrev pub require_owned : Runtime → Accounts → Pubkey → Pubkey → Result (Unit {0})
require_owned r a k e =
    require (a.owner_of k == r.program_id && a.owner_of e == r.program_id)
      StendarError.invalid_contribution

-- One round of the loop: the contributions that are still expected after this pair.
unfoldable pub check_pair :
    Runtime → Accounts → Pubkey → Pubkey → Pubkey → List Pubkey → Result (List Pubkey)
unfolding read_contribution read_escrow
check_pair r a contract_key k e expected = do
  require_owned r a k e
  rest ← ok_or (remove_key k expected) StendarError.invalid_contribution
  contribution ← read_contribution r a contract_key k
  escrow ← read_escrow a contract_key contribution.lender e
  require (e == escrow_address r contract_key contribution.lender) StendarError.invalid_contribution
  ok rest

-- The loop over `chunks(2)`. A last chunk of one account would be read out of bounds, a panic; the
-- test on the length rules it out.
unfoldable pub check_pairs :
    Runtime → Accounts → Pubkey → List Pubkey → List Pubkey → Result (Unit {0})
check_pairs r a contract_key [] expected =
    require (is_empty expected) StendarError.invalid_contribution
check_pairs r a contract_key (k ∷ []) expected = err StendarError.external
check_pairs r a contract_key (k ∷ e ∷ infos) expected = do
  rest ← check_pair r a contract_key k e expected
  check_pairs r a contract_key infos rest

-- `require_revolving_contribution_pairs`
unfoldable pub require_revolving_contribution_pairs :
    Runtime → Accounts → Pubkey → List Pubkey → List Pubkey → Result (Unit {0})
require_revolving_contribution_pairs r a contract_key expected infos = do
  expected_accounts ←
      ok_or (checked_mul u64_max (length expected) 2) StendarError.arithmetic_overflow
  require (length infos == expected_accounts) StendarError.invalid_contribution
  check_pairs r a contract_key infos expected
