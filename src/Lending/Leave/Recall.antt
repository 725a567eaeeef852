-- ===== src/Lending/Leave/Recall.antt =====
-- What the request of a recall does to a contract (`request_recall` of
-- programs/stendar/src/instructions/lending.rs).
use stendar_l.Base.{Bool, true, false, ◌≡◌, ◌⊎◌, arith}
use stendar_l.Base.Int.{ℤ}
use stendar_l.Error.{ok}
use stendar_l.State.Enums.{ContractStatus}
use stendar_l.State.Contract.{Pubkey, DebtContract, update_bot_tracking}
use stendar_l.State.Accounts.{LenderContribution}
use stendar_l.Lending.Leave.{request_recall}

-- A facility that is recalled lends nothing more.
pub record IsRecalled (c c' : DebtContract) : Type 0 where
  pub was_active : c.status ≡ ContractStatus.active
  pub pending : c'.status ≡ ContractStatus.pending_recall
  pub revolving : c'.is_revolving ≡ c.is_revolving
  pub borrower : c'.borrower ≡ c.borrower
  pub balance : c'.outstanding_balance ≡ c.outstanding_balance
  pub drawn : c'.drawn_amount ≡ c.drawn_amount
  pub limit : c'.credit_limit ≡ c.credit_limit
  pub vault : c'.loan_token_account ≡ c.loan_token_account
  pub closed : (c.is_revolving ≡ false) ⊎ (c'.revolving_closed ≡ true)
  pub available : (c.is_revolving ≡ false) ⊎ (c'.available_amount ≡ 0)
  pub still_closed : (c.revolving_closed ≡ false) ⊎ (c'.revolving_closed ≡ true)

pub request_recall-IsRecalled :
    (paused : Bool) (c : DebtContract) (contribution : LenderContribution)
    (contract_key lender : Pubkey) (now : ℤ) (c' : DebtContract)
    → request_recall paused c contribution contract_key lender now ≡ ok c'
    → IsRecalled c c'
unfolding request_recall update_bot_tracking
request_recall-IsRecalled paused c contribution contract_key lender now c' h = ground arith
