-- ===== src/Revolving/Close.antt =====
-- `close_revolving_facility` and `bot_close_matured_revolving` of
-- programs/stendar/src/instructions/revolving.rs.
pub mod Effect
pub mod Matured
use stendar_l.Base.{ℕ, true, not, ◌&&◌, ltb, ◌==◌, if◌then◌else◌}
use stendar_l.Base.Int.{ℤ, ltb_ℤ, leb_ℤ}
use stendar_l.Base.Word.{u64_max, checked_add}
use stendar_l.Error.{StendarError, Result, ok, ◌>>=◌, ◌>>◌, require, ok_or}
use stendar_l.State.Enums.{ContractStatus, status_eq, is_committed}
use stendar_l.State.Contract.{Pubkey, DebtContract, update_bot_tracking}
use stendar_l.Utils.Interest.{calculate_standby_fee, elapsed_since}
use stendar_l.Ledger.{Runtime, Ledger}
use stendar_l.Revolving.Facility.{
  bring_up_to_date, Facility, Caller, require_revolving_contract, require_versions,
  require_borrower, require_contract_account, require_token_account, maturity, count_operation,
}
use stendar_l.Revolving.Repay.{complete_if_done}

-- The tests of the borrower's instruction.
unfoldable pub may_close : Facility → Caller → Pubkey → Result (Unit {0})
unfolding require_borrower require_contract_account require_versions require_revolving_contract
    require_token_account
may_close f c treasury_usdc_account = do
  require_borrower f c
  require_contract_account f c
  require_versions f
  require_revolving_contract f.contract
  require (status_eq f.contract.status ContractStatus.active) StendarError.contract_not_funded
  require (not f.contract.revolving_closed) StendarError.revolving_facility_closed
  require_token_account f c.borrower_usdc_account c.signer
  require_token_account f treasury_usdc_account f.treasury_key
  require (f.treasury.treasury_usdc_account == treasury_usdc_account)
      StendarError.token_account_mismatch

-- The fee for ending a committed facility early, on what was still available.
unfoldable pub early_termination_fee : DebtContract → ℕ → ℤ → Result ℕ
unfolding elapsed_since
early_termination_fee c available now =
    if is_committed c.loan_type && ltb 0 c.term_days && ltb 0 available
    then (do
      m ← maturity c
      if ltb_ℤ now m
          then (do
            remaining ← elapsed_since m now
            calculate_standby_fee available c.standby_fee_rate remaining)
          else ok 0)
    else ok 0

-- The fee is paid into the contract's account, if there is one.
unfoldable pub pay_termination_fee : Runtime → Facility → Caller → ℕ → Result Ledger
pay_termination_fee r f c fee =
    if ltb 0 fee
    then r.transfer f.tokens c.borrower_usdc_account c.contract_usdc_account c.signer fee
    else ok f.tokens

-- The contract once it is closed: nothing is available, and the fee has accrued.
unfoldable pub record_close : DebtContract → ℕ → ℤ → Result DebtContract
record_close c fee now = do
  fees ← ok_or (checked_add u64_max c.accrued_standby_fees fee) StendarError.arithmetic_overflow
  ok (
      update_bot_tracking
        (complete_if_done
          (record c { revolving_closed = true; available_amount = 0; accrued_standby_fees = fees }))
        now)

-- `close_revolving_facility`
unfoldable pub close_revolving_facility : Runtime → Facility → Caller → Pubkey → ℤ → Result Facility
close_revolving_facility r f c treasury_usdc_account now = do
  may_close f c treasury_usdc_account
  accrued ← bring_up_to_date f.contract now
  fee ← early_termination_fee accrued accrued.available_amount now
  tokens ← pay_termination_fee r f c fee
  contract ← record_close accrued fee now
  ok (record f { contract = contract; tokens = tokens })

-- The tests of the bot's instruction.
unfoldable pub may_bot_close : Facility → Pubkey → Result (Unit {0})
unfolding require_versions require_revolving_contract
may_bot_close f bot_authority = do
  require (f.treasury.bot_authority == bot_authority) StendarError.unauthorized_bot_operation
  require_versions f
  require (not f.state.is_paused) StendarError.platform_paused
  require_revolving_contract f.contract
  require (status_eq f.contract.status ContractStatus.active) StendarError.contract_not_funded
  require (not f.contract.revolving_closed) StendarError.revolving_facility_closed
  require (is_committed f.contract.loan_type) StendarError.cannot_cancel_contract
  require (ltb 0 f.contract.term_days) StendarError.cannot_cancel_contract

-- `bot_close_matured_revolving`
unfoldable pub bot_close_matured_revolving : Facility → Pubkey → ℤ → Result Facility
bot_close_matured_revolving f bot_authority now = do
  may_bot_close f bot_authority
  m ← maturity f.contract
  require (leb_ℤ m now) StendarError.contract_not_expired
  accrued ← bring_up_to_date f.contract now
  contract ← record_close accrued 0 now
  treasury ← count_operation f.treasury now
  ok (record f { contract = contract; treasury = treasury })
