-- ===== src/Revolving/Draw.antt =====
-- `draw_from_revolving` of programs/stendar/src/instructions/revolving.rs.
pub mod Effect
pub mod Collateral
use stendar_l.Base.{ℕ, not, Option, ltb, leb, ◌==◌, if◌then◌else◌}
use stendar_l.Base.Int.{ℤ, ltb_ℤ}
use stendar_l.Base.Word.{u32_max, u64_max, checked_add, checked_sub}
use stendar_l.Error.{StendarError, Result, ok, ◌>>=◌, ◌>>◌, require, ok_or}
use stendar_l.State.Enums.{ContractStatus, status_eq}
use stendar_l.State.Contract.{Pubkey, DebtContract, update_bot_tracking}
use stendar_l.State.Accounts.{CollateralRegistry, find_collateral_type}
use stendar_l.Utils.Oracle.{
  get_price_in_usdc, calculate_collateral_value_in_usdc, calculate_ltv_bps, max_price_age_draw,
  max_confidence_bps_standard,
}
use stendar_l.Ledger.{Runtime}
use stendar_l.Revolving.Facility.{
  bring_up_to_date, Facility, Caller, require_revolving_contract, require_versions,
  require_borrower, require_contract_account, require_token_account, require_contract_address,
  maturity,
}
use stendar_l.Revolving.Pairs.{require_revolving_contribution_pairs}

-- The accounts that only this instruction takes: the registry, at its derived address if it is
-- passed, and the price account.
pub record PriceAccounts : Type 0 where
  pub collateral_registry : Option CollateralRegistry
  pub price_feed_account : Option Pubkey

-- The tests up to the clock.
unfoldable pub may_draw : Facility → Caller → ℕ → Result (Unit {0})
unfolding require_borrower require_contract_account require_versions require_revolving_contract
    require_token_account
may_draw f c amount = do
  require_borrower f c
  require_contract_account f c
  require (ltb 0 amount) StendarError.invalid_payment_amount
  require_versions f
  require (not f.state.is_paused) StendarError.platform_paused
  require_revolving_contract f.contract
  require (status_eq f.contract.status ContractStatus.active) StendarError.contract_not_funded
  require (not f.contract.revolving_closed) StendarError.revolving_facility_closed
  require (leb amount f.contract.available_amount) StendarError.draw_exceeds_available
  require_token_account f c.borrower_usdc_account c.signer
  require_token_account f c.contract_usdc_account f.contract_key
  require (leb amount (f.tokens c.contract_usdc_account).amount)
      StendarError.insufficient_contract_balance

-- No draw at or past maturity.
unfoldable pub require_before_maturity : DebtContract → ℤ → Result (Unit {0})
require_before_maturity c now =
    if ltb 0 c.term_days
    then (do m ← maturity c; require (ltb_ℤ now m) StendarError.past_maturity)
    else ok tt

-- The debt that a draw would leave, with what has accrued.
unfoldable pub full_debt : DebtContract → ℕ → Result ℕ
full_debt c amount = do
  drawn ← ok_or (checked_add u64_max c.drawn_amount amount) StendarError.arithmetic_overflow
  with_interest ←
      ok_or (checked_add u64_max drawn c.accrued_interest) StendarError.arithmetic_overflow
  ok_or (checked_add u64_max with_interest c.accrued_standby_fees) StendarError.arithmetic_overflow

-- The last part of the collateral test: the ratio of a collateral value to a debt.
unfoldable pub require_ltv : DebtContract → ℕ → ℕ → Result (Unit {0})
require_ltv c collateral_value debt = do
  current_ltv ← calculate_ltv_bps collateral_value debt
  require (leb current_ltv c.ltv_ratio) StendarError.revolving_ltv_breach

-- The collateral test of a secured facility, after accrual.
unfoldable pub require_collateral :
    Runtime → PriceAccounts → DebtContract → ℕ → ℤ → Result (Unit {0})
unfolding require_ltv full_debt
require_collateral r p c amount now =
    if ltb 0 c.ltv_ratio
    then (do
      registry ← ok_or p.collateral_registry StendarError.missing_token_accounts
      price_feed ← ok_or p.price_feed_account StendarError.missing_token_accounts
      collateral ←
          ok_or (find_collateral_type registry c.collateral_mint)
            StendarError.collateral_type_not_found
      require collateral.is_active StendarError.collateral_type_inactive
      require (collateral.oracle_price_feed == price_feed) StendarError.oracle_price_feed_mismatch
      price ←
          get_price_in_usdc r.read_price price_feed max_price_age_draw max_confidence_bps_standard
            now
      value ←
          calculate_collateral_value_in_usdc c.collateral_amount collateral.decimals price.0 price.1
      debt ← full_debt c amount
      require_ltv c value debt)
    else ok tt

-- The writes to the contract after the transfer.
unfoldable pub record_draw : DebtContract → ℕ → ℤ → Result DebtContract
record_draw c amount now = do
  drawn ← ok_or (checked_add u64_max c.drawn_amount amount) StendarError.arithmetic_overflow
  available ← ok_or (checked_sub c.available_amount amount) StendarError.draw_exceeds_available
  draws ← ok_or (checked_add u32_max c.total_draws 1) StendarError.arithmetic_overflow
  ok (
      update_bot_tracking
        (record c {
          drawn_amount = drawn;
          available_amount = available;
          total_draws = draws;
          outstanding_balance = drawn;
          last_interest_update = if c.total_draws == 0 then now else c.last_interest_update;
        })
        now)

-- `draw_from_revolving`
unfoldable pub draw_from_revolving :
    Runtime → Facility → Caller → PriceAccounts → ℕ → ℤ → Result Facility
draw_from_revolving r f c p amount now = do
  may_draw f c amount
  require_before_maturity f.contract now
  accrued ← bring_up_to_date f.contract now
  require_collateral r p accrued amount now
  require_revolving_contribution_pairs r f.accounts f.contract_key accrued.contributions
      c.remaining_accounts
  require_contract_address r f
  tokens ← r.transfer f.tokens c.contract_usdc_account c.borrower_usdc_account f.contract_key amount
  contract ← record_draw accrued amount now
  total_debt ←
      ok_or (checked_add u64_max f.state.total_debt amount) StendarError.arithmetic_overflow
  ok (record f {
    contract = contract;
    state = record (f.state) { total_debt = total_debt };
    tokens = tokens;
  })
