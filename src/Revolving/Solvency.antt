-- ===== src/Revolving/Solvency.antt =====
-- The life of a revolving facility as a sequence of the instructions of
-- programs/stendar/src/instructions/revolving.rs and of `request_recall` of instructions/lending.rs,
-- in any order, by any callers, at any times. The other instructions that write a contract (payments,
-- the repayment of a recall, liquidations, proposals) are no steps of it.
pub mod Steps
pub mod Runs
pub mod Status
use stendar_l.Base.{ℕ, Bool, true, false, ◌+◌, ◌≤◌, ◌≡◌, ◌≢◌, ◌⊎◌}
use stendar_l.Base.Int.{ℤ}
use stendar_l.Error.{ok}
use stendar_l.State.Contract.{Pubkey, DebtContract}
use stendar_l.State.Accounts.{PlatformState, LenderContribution}
use stendar_l.State.Treasury.{Treasury}
use stendar_l.Ledger.{Runtime, Ledger, Accounts}
use stendar_l.Revolving.Facility.{Facility, Caller, can_sweep_contract_pool}
use stendar_l.Revolving.Draw.{PriceAccounts, draw_from_revolving}
use stendar_l.Revolving.Repay.{repay_revolving}
use stendar_l.Revolving.Close.{close_revolving_facility, bot_close_matured_revolving}
use stendar_l.Revolving.Distribute.{distribute_standby_fees}
use stendar_l.Revolving.Sweep.{sweep_contract_pool}
use stendar_l.Lending.Leave.{request_recall}

-- The contract's own token account.
abbrev pub vault_amount : Facility → ℕ
vault_amount f = (f.tokens f.contract.loan_token_account).amount

-- A facility in good order: what may still be drawn lies in the contract's account, what is drawn and
-- what may be drawn stay within the limit, and a closed or finished facility lends nothing more.
pub record IsSolvent (f : Facility) : Type 0 where
  pub revolving : f.contract.is_revolving ≡ true
  pub apart : f.contract_key ≢ f.contract.borrower
  pub balance : f.contract.outstanding_balance ≡ f.contract.drawn_amount
  pub limit : f.contract.drawn_amount + f.contract.available_amount ≤ f.contract.credit_limit
  pub backed : f.contract.available_amount ≤ vault_amount f
  pub closed_lends_nothing :
      (f.contract.revolving_closed ≡ false) ⊎ (f.contract.available_amount ≡ 0)
  pub finished_lends_nothing :
      (can_sweep_contract_pool f.contract.status ≡ false) ⊎ (f.contract.available_amount ≡ 0)

-- One of these instructions that succeeds. Between two of them other programs and other contracts may move
-- tokens and change the platform's accounts, but not take from the contract's token account, for
-- which only this program signs.
pub data Step (r : Runtime) : Facility → Facility → Type 0 where
  draws :
      (f f' : Facility) (c : Caller) (p : PriceAccounts) (amount : ℕ) (now : ℤ)
      → draw_from_revolving r f c p amount now ≡ ok f'
      → Step r f f'
  repays :
      (f f' : Facility) (c : Caller) (amount : ℕ) (now : ℤ)
      → repay_revolving r f c amount now ≡ ok f'
      → Step r f f'
  closes :
      (f f' : Facility) (c : Caller) (k : Pubkey) (now : ℤ)
      → close_revolving_facility r f c k now ≡ ok f'
      → Step r f f'
  matures :
      (f f' : Facility) (bot : Pubkey) (now : ℤ)
      → bot_close_matured_revolving f bot now ≡ ok f'
      → Step r f f'
  distributes :
      (f f' : Facility) (c : Caller) (now : ℤ)
      → distribute_standby_fees r f c now ≡ ok f'
      → Step r f f'
  sweeps : (f f' : Facility) (c : Caller) → sweep_contract_pool r f c ≡ ok f' → Step r f f'
  recalls :
      (f : Facility) (contribution : LenderContribution) (lender : Pubkey) (now : ℤ)
      (c' : DebtContract)
      → request_recall f.state.is_paused f.contract contribution f.contract_key lender now ≡ ok c'
      → Step r f (record f { contract = c' })
  outside :
      (f : Facility) (state : PlatformState) (treasury : Treasury) (l : Ledger) (a : Accounts)
      → vault_amount f ≤ (l f.contract.loan_token_account).amount
      → Step r f (record f { state = state; treasury = treasury; tokens = l; accounts = a })

-- Any number of steps.
pub data Run (r : Runtime) : Facility → Facility → Type 0 where
  stop : (f : Facility) → Run r f f
  next : (f g h : Facility) → Step r f g → Run r g h → Run r f h
