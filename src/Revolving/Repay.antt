-- ===== src/Revolving/Repay.antt =====
-- `repay_revolving` of programs/stendar/src/instructions/revolving.rs.
pub mod Effect
use stendar_l.Base.{ℕ, ◌||◌, ltb, leb, if◌then◌else◌}
use stendar_l.Base.Int.{ℤ}
use stendar_l.Base.Word.{u64_max, checked_add, checked_sub}
use stendar_l.Error.{StendarError, Result, ok, ◌>>=◌, ◌>>◌, require, ok_or}
use stendar_l.State.Enums.{ContractStatus, status_eq}
use stendar_l.State.Contract.{DebtContract, update_bot_tracking}
use stendar_l.Utils.Interest.{check_revolving_completion}
use stendar_l.Ledger.{Runtime}
use stendar_l.Revolving.Facility.{
  bring_up_to_date, Facility, Caller, require_revolving_contract, require_versions,
  require_borrower, require_contract_account, require_token_account,
}
use stendar_l.Revolving.Pairs.{require_revolving_contribution_pairs}

-- The tests of the instruction up to the lenders' accounts.
unfoldable pub may_repay : Facility → Caller → ℕ → Result (Unit {0})
unfolding require_borrower require_contract_account require_versions require_revolving_contract
    require_token_account
may_repay f c amount = do
  require_borrower f c
  require_contract_account f c
  require (ltb 0 amount) StendarError.invalid_payment_amount
  require_versions f
  require_revolving_contract f.contract
  require
      (status_eq f.contract.status ContractStatus.active
        || status_eq f.contract.status ContractStatus.pending_recall)
      StendarError.contract_not_funded
  require (leb amount f.contract.drawn_amount) StendarError.invalid_payment_amount
  require_token_account f c.borrower_usdc_account c.signer
  require_token_account f c.contract_usdc_account f.contract_key

-- A facility with nothing left to pay, once it is closed, is complete.
unfoldable pub complete_if_done : DebtContract → DebtContract
complete_if_done c =
    if check_revolving_completion c then (record c { status = ContractStatus.completed }) else c

-- The drawable amount after a repayment.
unfoldable pub available_after : DebtContract → ℕ → Result ℕ
available_after c amount =
    if c.revolving_closed
    then ok 0
    else ok_or (checked_add u64_max c.available_amount amount) StendarError.arithmetic_overflow

-- The writes to the contract after the transfer.
unfoldable pub record_repayment : DebtContract → ℕ → ℤ → Result DebtContract
unfolding complete_if_done available_after
record_repayment c amount now = do
  drawn ← ok_or (checked_sub c.drawn_amount amount) StendarError.arithmetic_overflow
  available ← available_after c amount
  ok (
      update_bot_tracking
        (complete_if_done (record c {
          drawn_amount = drawn;
          outstanding_balance = drawn;
          available_amount = available;
        }))
        now)

-- `repay_revolving`
unfoldable pub repay_revolving : Runtime → Facility → Caller → ℕ → ℤ → Result Facility
repay_revolving r f c amount now = do
  may_repay f c amount
  require_revolving_contribution_pairs r f.accounts f.contract_key f.contract.contributions
      c.remaining_accounts
  accrued ← bring_up_to_date f.contract now
  tokens ← r.transfer f.tokens c.borrower_usdc_account c.contract_usdc_account c.signer amount
  contract ← record_repayment accrued amount now
  total_debt ← ok_or (checked_sub f.state.total_debt amount) StendarError.arithmetic_overflow
  ok (record f {
    contract = contract;
    state = record (f.state) { total_debt = total_debt };
    tokens = tokens;
  })
