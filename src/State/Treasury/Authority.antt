-- ===== src/State/Treasury/Authority.antt =====
-- Who may change the treasury's authorities (`Treasury` of programs/stendar/src/state/mod.rs).
use stendar_l.Base.{◌≡◌, ◌≢◌, ◌⊎◌, arith}
use stendar_l.Base.Int.{ℤ}
use stendar_l.Error.{Result, ok}
use stendar_l.State.Contract.{Pubkey, default_key}
use stendar_l.State.Treasury.{
  Treasury, propose_authority_transfer, accept_authority_transfer, set_bot_authority,
}

-- A call of one of the three methods.
pub data AuthorityCall : Type 0 where
  proposes : Pubkey → AuthorityCall
  accepts : AuthorityCall
  sets_bot : Pubkey → AuthorityCall

unfoldable pub call : AuthorityCall → Treasury → Pubkey → ℤ → Result Treasury
call (proposes new_authority) t signer now = propose_authority_transfer t signer new_authority now
call accepts t signer now = accept_authority_transfer t signer now
call (sets_bot new_bot_authority) t signer now = set_bot_authority t signer new_bot_authority now

-- A call that succeeds was signed either by the authority, which stays the authority, or by the key
-- that it had proposed, which becomes the authority and ends the proposal.
pub call_by_authority :
    (step : AuthorityCall) (t : Treasury) (signer : Pubkey) (now : ℤ) (t' : Treasury)
    → call step t signer now ≡ ok t'
    → (t.authority ≡ signer) × (t'.authority ≡ t.authority)
      ⊎ (t.pending_authority ≡ signer)
        × (signer ≢ default_key)
        × (t'.authority ≡ signer)
        × (t'.pending_authority ≡ default_key)
unfolding call propose_authority_transfer accept_authority_transfer set_bot_authority
call_by_authority (proposes new) t signer now t' h = ground arith
call_by_authority accepts t signer now t' h = ground arith
call_by_authority (sets_bot bot) t signer now t' h = ground arith
