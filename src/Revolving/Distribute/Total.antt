-- ===== src/Revolving/Distribute/Total.antt =====
-- What a whole distribution pays out (`distribute_standby_fees`).
use native.Mathlib.Decide.{ℕ_discrete}
use native.Mathlib.Nat.{mul-le-mul_right}
use stendar_l.Base.{ℕ, ◌+◌, ◌-◌, ◌*◌, ◌≤◌, ◌<◌, ◌≡◌, ◌∙◌, arith, List, [], ◌∷◌}
use stendar_l.Base.Keys.{length}
use stendar_l.Error.{ok, >>=-eq-ok}
use stendar_l.State.Contract.{Pubkey}
use stendar_l.Utils.Scale.Exact.{mul_div_u64-ok, div_bounds, le_of_mul_lt}
use stendar_l.Ledger.{Runtime, IsTokenProgram}
use stendar_l.Revolving.Distribute.{
  Distribution, Progress, lender_share, distribute_one, distribute_all,
}
use stendar_l.Revolving.Distribute.Shares.{contributed, amount_at, distribute_one-Round}

module _ (r : Runtime) (law : IsTokenProgram r) (d : Distribution) where
  -- A distribution takes from no token account more than it counts as distributed.
  pub distribute_all_takes :
      (index : ℕ) (infos : List Pubkey) (s s' : Progress) (v : Pubkey)
      → distribute_all r d index infos s ≡ ok s'
      → (s.tokens v).amount + s.distributed_standby ≤ (s'.tokens v).amount + s'.distributed_standby
  unfolding distribute_all
  distribute_all_takes index [] s s' v h = ground arith
  distribute_all_takes index (k ∷ []) s s' v h = ground arith
  distribute_all_takes index (k ∷ e ∷ []) s s' v h = ground arith
  distribute_all_takes index (k ∷ e ∷ u ∷ infos) s s' v h =
      let (m, p, h1) = >>=-eq-ok (distribute_one r d index k e u s) _ h in
      let (share, round) = distribute_one-Round r law d index k e u s m p in
      omega (arith, round.paid, round.at_most v, distribute_all_takes (index + 1) infos m s' v h1)

  share-last :
      (index amount distributed share : ℕ)
      → index + 1 ≡ d.contribution_count
      → lender_share d index amount distributed ≡ ok share
      → share ≡ d.standby_fee_amount - distributed
  unfolding lender_share
  share-last index amount distributed share e h = ground arith

  share-pro_rata :
      (index amount distributed share : ℕ)
      → index + 1 < d.contribution_count
      → lender_share d index amount distributed ≡ ok share
      → share * d.funded_amount ≤ amount * d.standby_fee_amount
  unfolding lender_share
  share-pro_rata index amount distributed share e h =
      let (positive, value, fits) =
        mul_div_u64-ok amount d.standby_fee_amount d.funded_amount {q = share} (ground arith) in
      rw value (div_bounds (amount * d.standby_fee_amount) d.funded_amount positive).0

  -- The last share brings the sum to the whole, since the earlier ones were rounded down.
  completes :
      (distributed so_far share : ℕ)
      → share ≡ d.standby_fee_amount - distributed
      → 0 < d.funded_amount
      → distributed * d.funded_amount ≤ so_far * d.standby_fee_amount
      → so_far ≤ d.funded_amount
      → distributed + share ≡ d.standby_fee_amount
  completes distributed so_far share e funded bound within =
      let whole = mul-le-mul_right d.standby_fee_amount within in
      let below : distributed ≤ d.standby_fee_amount =
        le_of_mul_lt distributed d.standby_fee_amount d.funded_amount (grind arith) in
      omega arith

  -- The bound on the sum after one more share.
  advances :
      (distributed so_far share amount : ℕ)
      → share * d.funded_amount ≤ amount * d.standby_fee_amount
      → distributed * d.funded_amount ≤ so_far * d.standby_fee_amount
      → (distributed + share) * d.funded_amount ≤ (so_far + amount) * d.standby_fee_amount
  advances distributed so_far share amount h k = grind arith

  nothing_left :
      (index : ℕ) (infos : List Pubkey) (s s' : Progress)
      → distribute_all r d index infos s ≡ ok s'
      → length infos ≡ 0
      → s'.distributed_standby ≡ s.distributed_standby
  unfolding distribute_all
  nothing_left index [] s s' h e = ground arith
  nothing_left index (k ∷ infos) s s' h e = absurd (omega arith)

  all_paid :
      (index : ℕ) (infos : List Pubkey) (s s' : Progress) (so_far : ℕ)
      → distribute_all r d index infos s ≡ ok s'
      → length infos + 3 * index ≡ 3 * d.contribution_count
      → index < d.contribution_count
      → 0 < d.funded_amount
      → s.distributed_standby * d.funded_amount ≤ so_far * d.standby_fee_amount
      → so_far + contributed s.accounts.contribution_at infos ≤ d.funded_amount
      → s'.distributed_standby ≡ d.standby_fee_amount
  unfolding distribute_all contributed
  all_paid index [] s s' so_far h shape more funded bound within = absurd (omega arith)
  all_paid index (k ∷ []) s s' so_far h shape more funded bound within = ground arith
  all_paid index (k ∷ e ∷ []) s s' so_far h shape more funded bound within = ground arith
  all_paid index (k ∷ e ∷ u ∷ infos) s s' so_far h shape more funded bound within =
      let (m, p, h1) = >>=-eq-ok (distribute_one r d index k e u s) _ h in
      let (share, round) = distribute_one-Round r law d index k e u s m p in
      let amount = amount_at (s.accounts.contribution_at k) in
      elim (ℕ_discrete (index + 1) d.contribution_count) [
        | yes final ↦
            nothing_left (index + 1) infos m s' h1 (omega arith)
            ∙ round.paid
            ∙ completes s.distributed_standby so_far share
                (share-last index amount s.distributed_standby share final round.by_contribution)
                funded bound (omega arith)
        | no further ↦
            let part =
              share-pro_rata index amount s.distributed_standby share (omega arith)
                round.by_contribution in
            all_paid (index + 1) infos m s' (so_far + amount) h1 (omega arith) (omega arith) funded
              (rw round.paid (advances s.distributed_standby so_far share amount part bound))
              (rw round.same_contributions (omega arith))
      ]

  -- A distribution to every lender pays out the whole of the accrued fees, if the contributions add
  -- up to at most the funded amount and there is a lender.
  pub distribute_all-total :
      (infos : List Pubkey) (s s' : Progress)
      → distribute_all r d 0 infos s ≡ ok s'
      → length infos ≡ 3 * d.contribution_count
      → 0 < d.contribution_count
      → 0 < d.funded_amount
      → s.distributed_standby ≡ 0
      → contributed s.accounts.contribution_at infos ≤ d.funded_amount
      → s'.distributed_standby ≡ d.standby_fee_amount
  distribute_all-total infos s s' h shape some_lender funded start within =
      all_paid 0 infos s s' 0 h (omega arith) some_lender funded (rw start (omega arith))
        (omega arith)
