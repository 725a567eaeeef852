-- ===== src/State/Accounts.antt =====
-- The platform's other accounts of programs/stendar/src/state/mod.rs: the global state, a lender's
-- contribution and escrow, the collateral registry. Reserved bytes are left out.
use stendar_l.Base.{ℕ, Bool, Option, none, some, List, [], ◌∷◌, ◌==◌, if◌then◌else◌}
use stendar_l.Base.Int.{ℤ}
use stendar_l.State.Contract.{Pubkey}

-- `State`
pub record PlatformState : Type 0 where
  pub authority : Pubkey
  pub total_debt : ℕ
  pub total_collateral : ℕ
  pub total_interest_paid : ℕ
  pub total_liquidations : ℕ
  pub total_partial_liquidations : ℕ
  pub total_contracts : ℕ
  pub platform_fee_basis_points : ℕ
  pub pool_deposit_fee_bps : ℕ
  pub pool_yield_fee_bps : ℕ
  pub primary_listing_fee_bps : ℕ
  pub secondary_listing_fee_bps : ℕ
  pub secondary_buyer_fee_bps : ℕ
  pub is_paused : Bool
  pub account_version : ℕ

pub record LenderContribution : Type 0 where
  pub lender : Pubkey
  pub contract : Pubkey
  pub contribution_amount : ℕ
  pub total_interest_claimed : ℕ
  pub total_principal_claimed : ℕ
  pub last_claim_timestamp : ℤ
  pub is_refunded : Bool
  pub created_at : ℤ
  pub last_contributed_at : ℤ
  pub account_version : ℕ

pub record LenderEscrow : Type 0 where
  pub lender : Pubkey
  pub contract : Pubkey
  pub escrow_amount : ℕ
  pub available_interest : ℕ
  pub available_principal : ℕ
  pub total_claimed : ℕ
  pub is_released : Bool
  pub created_at : ℤ
  pub escrow_token_account : Pubkey
  pub account_version : ℕ

pub record CollateralType : Type 0 where
  pub mint : Pubkey
  pub oracle_price_feed : Pubkey
  pub decimals : ℕ
  pub liquidation_buffer_bps : ℕ
  pub min_committed_floor_bps : ℕ
  pub is_active : Bool

pub record CollateralRegistry : Type 0 where
  pub authority : Pubkey
  pub num_collateral_types : ℕ
  pub collateral_types : List CollateralType
  pub account_version : ℕ

find_by_mint : List CollateralType → Pubkey → Option CollateralType
find_by_mint [] mint = none
find_by_mint (ct ∷ cts) mint = if ct.mint == mint then some ct else find_by_mint cts mint

-- `CollateralRegistry::find_collateral_type`
unfoldable pub find_collateral_type : CollateralRegistry → Pubkey → Option CollateralType
unfolding find_by_mint
find_collateral_type r mint = find_by_mint r.collateral_types mint
