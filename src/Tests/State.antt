-- ===== src/Tests/State.antt =====
-- An instance of the result on the treasury's authority.
use stendar_l.Base.{◌≡◌, ◌≢◌, ◌⊎◌, refl}
use stendar_l.Base.Int.{pos}
use stendar_l.Error.{ok}
use stendar_l.State.Contract.{default_key}
use stendar_l.State.Treasury.{Treasury, accept_authority_transfer}
use stendar_l.State.Treasury.Authority.{call, accepts, call_by_authority}
use stendar_l.Tests.Concrete.{example_facility, result_or}

-- The authority 4 has proposed the key 12.
abbrev proposed : Treasury
proposed = record (example_facility.treasury) { pending_authority = 12 }

abbrev handed_over : Treasury
handed_over = result_or proposed (call accepts proposed 12 (pos 100))

accepted : call accepts proposed 12 (pos 100) ≡ ok handed_over
unfolding call accept_authority_transfer
accepted = refl

call_by_authority_example :
    (proposed.authority ≡ 12) × (handed_over.authority ≡ proposed.authority)
    ⊎ (proposed.pending_authority ≡ 12)
      × (12 ≢ default_key)
      × (handed_over.authority ≡ 12)
      × (handed_over.pending_authority ≡ default_key)
call_by_authority_example = call_by_authority accepts proposed 12 (pos 100) handed_over accepted
