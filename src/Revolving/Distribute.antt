-- ===== src/Revolving/Distribute.antt =====
-- `distribute_standby_fees` of programs/stendar/src/instructions/revolving.rs: the accrued fees go from
-- the contract's account to the lenders' escrows, by contribution.
pub mod Shares
pub mod Total
pub mod Effect
use stendar_l.Base.{ℕ, ◌+◌, ◌||◌, List, [], ◌∷◌, ltb, leb, ◌==◌, if◌then◌else◌}
use stendar_l.Base.Int.{ℤ}
use stendar_l.Base.Keys.{length, is_empty, remove_key}
use stendar_l.Base.Word.{u64_max, checked_add, checked_mul, saturating_sub}
use stendar_l.Error.{StendarError, Result, ok, err, ◌>>=◌, ◌>>◌, require, ok_or}
use stendar_l.State.Enums.{ContractStatus, status_eq}
use stendar_l.State.Contract.{Pubkey, DebtContract, default_key, update_bot_tracking}
use stendar_l.State.Accounts.{LenderContribution, LenderEscrow}
use stendar_l.Utils.Scale.{mul_div_u64}
use stendar_l.Utils.Interest.{checkpoint_standby_fees}
use stendar_l.Ledger.{Runtime, Ledger, Accounts, write_escrow}
use stendar_l.Revolving.Facility.{
  Facility, Caller, require_revolving_contract, require_versions, require_contract_account,
  require_token_account, require_contract_address, count_operation,
}
use stendar_l.Revolving.Pairs.{read_contribution, read_escrow, require_owned, escrow_address}
use stendar_l.Revolving.Repay.{complete_if_done}

-- What the loop reads and never changes.
pub record Distribution : Type 0 where
  pub contract_key : Pubkey
  pub loan_mint : Pubkey
  pub contract_usdc_account : Pubkey
  pub funded_amount : ℕ
  pub contribution_count : ℕ
  pub standby_fee_amount : ℕ

-- What the loop changes.
pub record Progress : Type 0 where
  pub tokens : Ledger
  pub accounts : Accounts
  pub remaining_contributions : List Pubkey
  pub distributed_standby : ℕ

-- `lender_share`: the last lender takes what the others' rounding left.
unfoldable pub lender_share : Distribution → ℕ → ℕ → ℕ → Result ℕ
lender_share d index contribution_amount distributed =
    if index + 1 == d.contribution_count
    then ok (saturating_sub d.standby_fee_amount distributed)
    else mul_div_u64 contribution_amount d.standby_fee_amount d.funded_amount

-- The token account of an escrow is fixed at the first payment.
unfoldable pub bind_escrow_account : LenderEscrow → Pubkey → Result LenderEscrow
bind_escrow_account escrow k =
    if escrow.escrow_token_account == default_key
    then ok (record escrow { escrow_token_account = k })
    else require (escrow.escrow_token_account == k) StendarError.token_account_mismatch >> ok escrow

-- A share enters an escrow's two sums.
unfoldable pub credit_escrow : LenderEscrow → ℕ → Result LenderEscrow
credit_escrow escrow share = do
  interest ←
      ok_or (checked_add u64_max escrow.available_interest share) StendarError.arithmetic_overflow
  total ← ok_or (checked_add u64_max escrow.escrow_amount share) StendarError.arithmetic_overflow
  ok (record escrow { available_interest = interest; escrow_amount = total })

-- The payment of one share, `escrow_key` the escrow and `usdc_key` its token account.
unfoldable pub pay_share :
    Runtime → Distribution → Progress → Pubkey → Pubkey → LenderEscrow → ℕ → Result Progress
unfolding bind_escrow_account credit_escrow
pay_share r d s escrow_key usdc_key escrow share =
    if ltb 0 share
    then (do
      tokens ← r.transfer s.tokens d.contract_usdc_account usdc_key d.contract_key share
      bound ← bind_escrow_account escrow usdc_key
      credited ← credit_escrow bound share
      ok (record s { tokens = tokens; accounts = write_escrow s.accounts escrow_key credited }))
    else ok s

-- The tests of one round, which read the lender's contribution and escrow.
unfoldable pub read_lender :
    Runtime
    → Distribution
    → Accounts
    → Ledger
    → Pubkey
    → Pubkey
    → Pubkey
    → Result (LenderContribution × LenderEscrow)
unfolding read_contribution read_escrow
read_lender r d a tokens contribution_key escrow_key usdc_key = do
  require_owned r a contribution_key escrow_key
  contribution ← read_contribution r a d.contract_key contribution_key
  require (escrow_key == escrow_address r d.contract_key contribution.lender)
      StendarError.invalid_contribution
  escrow ← read_escrow a d.contract_key contribution.lender escrow_key
  require (a.is_token_account usdc_key) StendarError.token_account_mismatch
  require ((tokens usdc_key).owner == escrow_key) StendarError.token_account_mismatch
  require ((tokens usdc_key).mint == d.loan_mint) StendarError.invalid_usdc_mint
  ok (contribution, escrow)

-- One round of the loop.
unfoldable pub distribute_one :
    Runtime → Distribution → ℕ → Pubkey → Pubkey → Pubkey → Progress → Result Progress
distribute_one r d index contribution_key escrow_key usdc_key s = do
  rest ←
      ok_or (remove_key contribution_key s.remaining_contributions)
        StendarError.invalid_contribution
  lender ← read_lender r d s.accounts s.tokens contribution_key escrow_key usdc_key
  share ← lender_share d index (lender.0).contribution_amount s.distributed_standby
  distributed ←
      ok_or (checked_add u64_max s.distributed_standby share) StendarError.arithmetic_overflow
  pay_share r d (record s { remaining_contributions = rest; distributed_standby = distributed })
      escrow_key usdc_key (lender.1) share

-- The loop over `chunks(3)`. A shorter last chunk would be read out of bounds, a panic; the test on
-- the length rules it out.
unfoldable pub distribute_all :
    Runtime → Distribution → ℕ → List Pubkey → Progress → Result Progress
distribute_all r d index [] s = ok s
distribute_all r d index (k ∷ []) s = err StendarError.external
distribute_all r d index (k ∷ e ∷ []) s = err StendarError.external
distribute_all r d index (k ∷ e ∷ u ∷ infos) s = do
  s' ← distribute_one r d index k e u s
  distribute_all r d (index + 1) infos s'

-- The tests up to the clock; the caller signs as the bot.
unfoldable pub may_distribute : Facility → Caller → Result (Unit {0})
unfolding require_contract_account require_versions require_revolving_contract require_token_account
may_distribute f c = do
  require (f.treasury.bot_authority == c.signer) StendarError.unauthorized_bot_operation
  require_contract_account f c
  require_versions f
  require_revolving_contract f.contract
  require
      (status_eq f.contract.status ContractStatus.active
        || status_eq f.contract.status ContractStatus.pending_recall)
      StendarError.contract_not_funded
  require_token_account f c.contract_usdc_account f.contract_key

-- The writes to the contract after the loop.
unfoldable pub record_distribution : DebtContract → ℕ → ℤ → Result DebtContract
record_distribution c distributed now = do
  paid ←
      ok_or (checked_add u64_max c.total_standby_fees_paid distributed)
        StendarError.arithmetic_overflow
  ok (
      update_bot_tracking
        (complete_if_done (record c {
          total_standby_fees_paid = paid;
          accrued_standby_fees = 0;
          available_amount =
              if c.revolving_closed
              then c.available_amount
              else saturating_sub c.available_amount distributed;
        }))
        now)

-- The constants of the loop, for a contract whose fees are up to date.
abbrev pub distribution_of : Facility → Caller → DebtContract → Distribution
distribution_of f c contract = record {
  contract_key = f.contract_key;
  loan_mint = contract.loan_mint;
  contract_usdc_account = c.contract_usdc_account;
  funded_amount = contract.funded_amount;
  contribution_count = length contract.contributions;
  standby_fee_amount = contract.accrued_standby_fees;
}

-- `distribute_standby_fees`
unfoldable pub distribute_standby_fees : Runtime → Facility → Caller → ℤ → Result Facility
distribute_standby_fees r f c now = do
  may_distribute f c
  contract ← checkpoint_standby_fees f.contract now
  require (leb contract.accrued_standby_fees (f.tokens c.contract_usdc_account).amount)
      StendarError.insufficient_contract_balance
  require (ltb 0 contract.funded_amount) StendarError.invalid_contribution_amount
  expected_accounts ←
      ok_or (checked_mul u64_max (length contract.contributions) 3) StendarError.arithmetic_overflow
  require (length c.remaining_accounts == expected_accounts) StendarError.invalid_contribution
  require_contract_address r f
  done ← distribute_all r (distribution_of f c contract) 0 c.remaining_accounts (record {
    tokens = f.tokens;
    accounts = f.accounts;
    remaining_contributions = contract.contributions;
    distributed_standby = 0;
  })
  require (is_empty done.remaining_contributions) StendarError.invalid_contribution
  closed ← record_distribution contract done.distributed_standby now
  treasury ← count_operation f.treasury now
  ok (record f {
    contract = closed;
    treasury = treasury;
    tokens = done.tokens;
    accounts = done.accounts;
  })
