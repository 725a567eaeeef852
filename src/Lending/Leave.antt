-- ===== src/Lending/Leave.antt =====
-- How lenders take their money out (programs/stendar/src/instructions/lending.rs):
-- `withdraw_contribution` while a contract is open, `refund_lender` after it is cancelled,
-- `claim_from_escrow` while it runs; and `request_recall`. The `seeds`
-- constraints of contexts/lending.rs choose the escrow and the contribution.
pub mod Slots
pub mod Recall
use stendar_l.Base.{
  ℕ, ◌+◌, ◌&&◌, ◌||◌, not, true, Bool, Option, none, some, List, [], ◌∷◌, ltb, ◌==◌, if◌then◌else◌,
}
use stendar_l.Base.Int.{ℤ, pos, ◌-ℤ◌, leb_ℤ, is_zero}
use stendar_l.Base.Keys.{remove_key}
use stendar_l.Base.Word.{u64_max, checked_add, checked_sub, checked_i64, saturating_sub}
use stendar_l.Error.{StendarError, Result, ok, ◌>>=◌, ◌>>◌, require, ok_or}
use stendar_l.State.Enums.{ContractStatus, status_eq, is_open}
use stendar_l.State.Contract.{Pubkey, DebtContract, default_key, update_bot_tracking}
use stendar_l.State.Accounts.{LenderContribution, LenderEscrow}
use stendar_l.Utils.Scale.{require_current_version, mul_div_u64}
use stendar_l.Ledger.{Ledger, Runtime, Seed}
use stendar_l.Revolving.Pairs.{escrow_address}
use stendar_l.Lending.{validate_demand_recall_contract}

abbrev withdrawal_cooldown_seconds : ℤ
withdrawal_cooldown_seconds = pos 60

-- The lender who signs, the keys of the call, and the clock.
pub record LenderCall : Type 0 where
  pub lender : Pubkey
  pub contract_key : Pubkey
  pub contribution_key : Pubkey
  pub escrow_key : Pubkey
  -- Is the token program passed?
  pub token_program : Bool
  pub contract_usdc_account : Option Pubkey
  pub escrow_usdc_account : Option Pubkey
  pub lender_usdc_account : Option Pubkey
  pub current_time : ℤ

-- The transfer of an amount from the contract's account to the lender, with its tests.
unfoldable pub pay_lender : Runtime → Ledger → DebtContract → LenderCall → ℕ → Result Ledger
pay_lender r tokens c k amount = do
  require k.token_program StendarError.missing_token_accounts
  contract_usdc ← ok_or k.contract_usdc_account StendarError.missing_token_accounts
  lender_usdc ← ok_or k.lender_usdc_account StendarError.missing_token_accounts
  require
      ((tokens contract_usdc).owner == k.contract_key
        && (tokens contract_usdc).mint == c.loan_mint
        && contract_usdc == c.loan_token_account)
      StendarError.token_account_mismatch
  require ((tokens lender_usdc).owner == k.lender && (tokens lender_usdc).mint == c.loan_mint)
      StendarError.token_account_mismatch
  require
      (r.find_program_address
          (Seed.text "debt_contract" ∷ Seed.key c.borrower ∷ Seed.u64_le c.contract_seed ∷ [])
        == k.contract_key)
      StendarError.invalid_contract_reference
  r.transfer tokens contract_usdc lender_usdc k.contract_key amount

-- When the lender last contributed.
abbrev last_contribution_timestamp : LenderContribution → ℤ
last_contribution_timestamp contribution =
    if is_zero contribution.last_contributed_at
    then contribution.created_at
    else contribution.last_contributed_at

-- `withdraw_contribution` up to the token accounts, its constraints first.
unfoldable pub may_withdraw_contribution :
    DebtContract → LenderContribution → LenderEscrow → LenderCall → Result (Unit {0})
may_withdraw_contribution c contribution escrow k = do
  require (contribution.contract == k.contract_key) StendarError.invalid_contribution
  require (contribution.lender == k.lender) StendarError.unauthorized_claim
  require (escrow.contract == k.contract_key) StendarError.invalid_contribution
  require (escrow.lender == k.lender) StendarError.invalid_contribution
  require_current_version c.account_version
  require_current_version contribution.account_version
  require (is_open c.status) StendarError.contract_not_open_for_withdrawal
  require
      (escrow.escrow_amount == 0
        && escrow.available_interest == 0
        && escrow.available_principal == 0)
      StendarError.escrow_not_empty
  elapsed ←
      ok_or (checked_i64 (k.current_time -ℤ last_contribution_timestamp contribution))
        StendarError.arithmetic_overflow
  require (leb_ℤ withdrawal_cooldown_seconds elapsed) StendarError.withdrawal_cooldown_not_elapsed

-- The contract after the transfer.
unfoldable pub remove_contribution :
    DebtContract → (contribution_key : Pubkey) → ℕ → ℤ → Result DebtContract
remove_contribution c contribution_key amount current_time = do
  funded ← ok_or (checked_sub c.funded_amount amount) StendarError.arithmetic_overflow
  count ← ok_or (checked_sub c.num_contributions 1) StendarError.arithmetic_overflow
  left ← ok_or (remove_key contribution_key c.contributions) StendarError.invalid_contribution
  ok (
      update_bot_tracking
        (record c {
          funded_amount = funded;
          num_contributions = count;
          contributions = left;
          status =
              if funded == 0
              then ContractStatus.open_not_funded
              else ContractStatus.open_partially_funded;
        })
        current_time)

-- `withdraw_contribution`; the contribution and the escrow are closed by it.
unfoldable pub withdraw_contribution :
    Runtime
    → Ledger
    → DebtContract
    → LenderContribution
    → LenderEscrow
    → LenderCall
    → Result (DebtContract × Ledger)
unfolding may_withdraw_contribution pay_lender remove_contribution
withdraw_contribution r tokens c contribution escrow k = do
  may_withdraw_contribution c contribution escrow k
  tokens' ← pay_lender r tokens c k contribution.contribution_amount
  c' ← remove_contribution c k.contribution_key contribution.contribution_amount k.current_time
  ok (c', tokens')

-- The owners of the accounts after the escrow's account, if it is passed, is given back to the system
-- program.
unfoldable pub close_escrow :
    Runtime
    → (system_program : Pubkey) (owner_of : Pubkey → Pubkey) → LenderCall
    → Option Pubkey
    → Result (Pubkey → Pubkey)
close_escrow r system_program owner_of k none = ok owner_of
close_escrow r system_program owner_of k (some escrow_key) = do
  require (escrow_key == escrow_address r k.contract_key k.lender) StendarError.invalid_contribution
  require (owner_of escrow_key == r.program_id) StendarError.invalid_contribution
  ok (λ key. if key == escrow_key then system_program else owner_of key)

-- `refund_lender`, its constraints first.
unfoldable pub refund_lender :
    Runtime
    → Ledger
    → (system_program : Pubkey) (owner_of : Pubkey → Pubkey) → DebtContract
    → LenderContribution
    → LenderCall
    → Option Pubkey
    → Result (DebtContract × LenderContribution × Ledger × (Pubkey → Pubkey))
unfolding pay_lender close_escrow
refund_lender r tokens system_program owner_of c contribution k escrow_to_close = do
  require (contribution.contract == k.contract_key) StendarError.invalid_contribution
  require (contribution.lender == k.lender) StendarError.unauthorized_claim
  require_current_version c.account_version
  require_current_version contribution.account_version
  require (status_eq c.status ContractStatus.cancelled) StendarError.contract_not_cancelled
  require (not contribution.is_refunded) StendarError.already_refunded
  tokens' ← pay_lender r tokens c k contribution.contribution_amount
  funded ←
      ok_or (checked_sub c.funded_amount contribution.contribution_amount)
        StendarError.arithmetic_overflow
  owner_of' ← close_escrow r system_program owner_of k escrow_to_close
  ok (
    record c { funded_amount = funded },
    record contribution { is_refunded = true },
    tokens',
    owner_of',
  )

-- `request_recall`, its constraints first.
unfoldable pub request_recall :
    Bool
    → DebtContract
    → LenderContribution
    → (contract_key lender_key : Pubkey) → ℤ
    → Result DebtContract
unfolding validate_demand_recall_contract
request_recall is_paused c contribution contract_key lender_key current_time = do
  require (contribution.contract == contract_key) StendarError.invalid_contribution
  require (contribution.lender == lender_key) StendarError.unauthorized_claim
  require (not contribution.is_refunded) StendarError.already_refunded
  require (not is_paused) StendarError.platform_paused
  require_current_version c.account_version
  require_current_version contribution.account_version
  validate_demand_recall_contract c
  require (not c.recall_requested) StendarError.recall_already_pending
  require (status_eq c.status ContractStatus.active) StendarError.contract_not_funded
  require (ltb 0 contribution.contribution_amount) StendarError.invalid_contribution_amount
  ok (
      update_bot_tracking
        (record c {
          recall_requested = true;
          recall_requested_at = current_time;
          recall_requested_by = lender_key;
          revolving_closed = if c.is_revolving then true else c.revolving_closed;
          available_amount = if c.is_revolving then 0 else c.available_amount;
          status = ContractStatus.pending_recall;
        })
        current_time)

-- The transfer of `claim_from_escrow`, with its tests.
unfoldable pub pay_from_escrow :
    Runtime → Ledger → DebtContract → LenderEscrow → LenderCall → ℕ → Result Ledger
pay_from_escrow r tokens c escrow k amount = do
  require k.token_program StendarError.missing_token_accounts
  escrow_usdc ← ok_or k.escrow_usdc_account StendarError.missing_token_accounts
  lender_usdc ← ok_or k.lender_usdc_account StendarError.missing_token_accounts
  require (not (escrow.escrow_token_account == default_key)) StendarError.missing_token_accounts
  require (escrow.escrow_token_account == escrow_usdc) StendarError.token_account_mismatch
  require ((tokens escrow_usdc).owner == k.escrow_key && (tokens escrow_usdc).mint == c.loan_mint)
      StendarError.token_account_mismatch
  require ((tokens lender_usdc).owner == k.lender && (tokens lender_usdc).mint == c.loan_mint)
      StendarError.token_account_mismatch
  r.transfer tokens escrow_usdc lender_usdc k.escrow_key amount

-- The escrow after a claim, if it stays.
unfoldable pub record_lender_claim : LenderEscrow → ℕ → Result LenderEscrow
record_lender_claim escrow total_available = do
  claimed ←
      ok_or (checked_add u64_max escrow.total_claimed total_available)
        StendarError.arithmetic_overflow
  left ← ok_or (checked_sub escrow.escrow_amount total_available) StendarError.arithmetic_overflow
  ok (record escrow {
    total_claimed = claimed;
    escrow_amount = left;
    available_interest = 0;
    available_principal = 0;
  })

-- Is the escrow of a finished contract settled by the claim?
unfoldable pub should_close : DebtContract → LenderEscrow → ℕ → Bool
should_close c escrow total_available =
    (status_eq c.status ContractStatus.completed || status_eq c.status ContractStatus.liquidated)
    && escrow.escrow_amount == total_available

-- The escrow is gone, and so is its token account.
abbrev settle_escrow : Result Ledger → Result (Option LenderEscrow × Ledger)
settle_escrow closed = do tokens ← closed; ok (none, tokens)

abbrev keep_escrow : Ledger → Result LenderEscrow → Result (Option LenderEscrow × Ledger)
keep_escrow tokens claimed = do escrow ← claimed; ok (some escrow, tokens)

-- `claim_from_escrow`, its constraints first. An escrow that is settled is closed: it is `none`, and
-- its token account is closed by `token::close_account`.
unfoldable pub claim_from_escrow :
    Runtime
    → (close_account : Ledger → (account authority : Pubkey) → Result Ledger) → Ledger
    → DebtContract
    → LenderEscrow
    → LenderCall
    → Result (Option LenderEscrow × Ledger)
unfolding pay_from_escrow should_close record_lender_claim
claim_from_escrow r close_account tokens c escrow k = do
  require (escrow.contract == k.contract_key) StendarError.invalid_contribution
  require (escrow.lender == k.lender) StendarError.unauthorized_claim
  require_current_version escrow.account_version
  total_available ←
      ok_or (checked_add u64_max escrow.available_interest escrow.available_principal)
        StendarError.arithmetic_overflow
  require (ltb 0 total_available) StendarError.no_payment_due
  tokens' ← pay_from_escrow r tokens c escrow k total_available
  if should_close c escrow total_available
      then settle_escrow (close_account tokens' escrow.escrow_token_account k.escrow_key)
      else keep_escrow tokens' (record_lender_claim escrow total_available)
