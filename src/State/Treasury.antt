-- ===== src/State/Treasury.antt =====
-- `Treasury` of programs/stendar/src/state/mod.rs and its methods: the two-step transfer of the
-- authority, and the bot's authority.
pub mod Authority
use stendar_l.Base.{ℕ, Bool, not, ◌==◌}
use stendar_l.Base.Int.{ℤ}
use stendar_l.Error.{StendarError, Result, ok, ◌>>◌, require}
use stendar_l.State.Contract.{Pubkey, default_key}

pub record Treasury : Type 0 where
  pub authority : Pubkey
  pub pending_authority : Pubkey
  pub bot_authority : Pubkey
  pub fees_collected : ℕ
  pub transaction_costs : ℕ
  pub automated_operations : ℕ
  pub total_contracts_processed : ℕ
  pub last_update : ℤ
  pub created_at : ℤ
  pub usdc_mint : Pubkey
  pub treasury_usdc_account : Pubkey
  pub total_liquidation_fees : ℕ
  pub total_recall_fees : ℕ
  pub account_version : ℕ

-- `Treasury::is_authority`
unfoldable pub is_authority : Treasury → Pubkey → Bool
is_authority t signer = t.authority == signer

-- `Treasury::propose_authority_transfer`
unfoldable pub propose_authority_transfer : Treasury → Pubkey → Pubkey → ℤ → Result Treasury
unfolding is_authority
propose_authority_transfer t signer new_authority current_time = do
  require (is_authority t signer) StendarError.unauthorized_authority_update
  require (not (new_authority == default_key)) StendarError.invalid_authority
  require (not (new_authority == t.authority)) StendarError.invalid_authority
  ok (record t { pending_authority = new_authority; last_update = current_time })

-- `Treasury::accept_authority_transfer`
unfoldable pub accept_authority_transfer : Treasury → Pubkey → ℤ → Result Treasury
accept_authority_transfer t signer current_time = do
  require (not (t.pending_authority == default_key)) StendarError.invalid_authority
  require (signer == t.pending_authority) StendarError.unauthorized_authority_update
  ok (record t { authority = signer; pending_authority = default_key; last_update = current_time })

-- `Treasury::set_bot_authority`
unfoldable pub set_bot_authority : Treasury → Pubkey → Pubkey → ℤ → Result Treasury
unfolding is_authority
set_bot_authority t signer new_bot_authority current_time = do
  require (is_authority t signer) StendarError.unauthorized_authority_update
  require (not (new_bot_authority == default_key)) StendarError.invalid_authority
  ok (record t { bot_authority = new_bot_authority; last_update = current_time })
