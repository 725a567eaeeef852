-- ===== src/Ledger.antt =====
-- What the program reads and writes outside its own code. Token balances lie in accounts of the SPL
-- token program, and addresses are derived by the runtime: neither is part of the repository, so
-- `token::transfer`, `Pubkey::find_program_address` and the price accounts are parameters, and
-- `IsTokenProgram` states what is documented of a transfer.
pub mod Balances
use stendar_l.Base.{Bool, ℕ, ◌+◌, ◌≡◌, ◌≢◌, List, Option, some, ◌==◌, if◌then◌else◌}
use Prim.Native.String.{String}
use stendar_l.Error.{Result, ok}
use stendar_l.State.Contract.{Pubkey}
use stendar_l.State.Accounts.{LenderContribution, LenderEscrow}
use stendar_l.Utils.Oracle.{PriceReader}

-- `TokenAccount` of the token program: its owner, its mint, and how many tokens it holds.
pub record TokenAccount : Type 0 where
  pub owner : Pubkey
  pub mint : Pubkey
  pub amount : ℕ

-- The token accounts by their keys.
abbrev pub Ledger : Type 0
Ledger = Pubkey → TokenAccount

-- One of the byte strings from which an address is derived.
pub data Seed : Type 0 where
  text : String → Seed
  key : Pubkey → Seed
  u64_le : ℕ → Seed

pub record Runtime : Type 0 where
  -- The key of this program.
  pub program_id : Pubkey
  -- `Pubkey::find_program_address`, less the bump.
  pub find_program_address : List Seed → Pubkey
  -- `token::transfer` from one account to another, by an authority.
  pub transfer : Ledger → Pubkey → Pubkey → Pubkey → ℕ → Result Ledger
  pub read_price : PriceReader

-- What the token program documents of a transfer that succeeds.
pub record IsTokenProgram (r : Runtime) : Type 0 where
  pub moves :
      (l l' : Ledger) (from to by : Pubkey) (n : ℕ)
      → r.transfer l from to by n ≡ ok l'
      → from ≢ to
      → ((l' from).amount + n ≡ (l from).amount) × ((l' to).amount ≡ (l to).amount + n)
  -- A transfer from an account to itself changes no balance.
  pub stays :
      (l l' : Ledger) (k by : Pubkey) (n : ℕ) (j : Pubkey)
      → r.transfer l k k by n ≡ ok l'
      → (l' j).amount ≡ (l j).amount
  pub others :
      (l l' : Ledger) (from to by : Pubkey) (n : ℕ) (k : Pubkey)
      → r.transfer l from to by n ≡ ok l'
      → k ≢ from
      → k ≢ to
      → l' k ≡ l k
  pub kept :
      (l l' : Ledger) (from to by : Pubkey) (n : ℕ) (k : Pubkey)
      → r.transfer l from to by n ≡ ok l'
      → ((l' k).owner ≡ (l k).owner) × ((l' k).mint ≡ (l k).mint)

-- The accounts of the program that one contract's instructions touch, by key where there are many.
-- A contribution or an escrow is what its bytes deserialize to, if they do.
pub record Accounts : Type 0 where
  pub owner_of : Pubkey → Pubkey
  -- Does `Account::<TokenAccount>::try_from` accept the account?
  pub is_token_account : Pubkey → Bool
  pub contribution_at : Pubkey → Option LenderContribution
  pub escrow_at : Pubkey → Option LenderEscrow

-- `escrow.try_serialize`
abbrev pub write_escrow : Accounts → Pubkey → LenderEscrow → Accounts
write_escrow a k escrow = record a {
  escrow_at = λ j. if j == k then some escrow else a.escrow_at j;
}
