-- ===== src/Revolving/Solvency/Status.antt =====
-- The status of a facility over the instructions of a revolving facility, against the table of
-- transitions of programs/stendar/src/state/enums.rs.
use stendar_l.Base.{
  Bool, true, false, ◌||◌, ◌≡◌, ◌∙◌, ◌⊎◌, inl, inr, ap, refl, sym, arith, List, [], ◌∷◌,
}
use stendar_l.State.Enums.{ContractStatus, status_eq, valid_transitions}
use stendar_l.Ledger.{Runtime, IsTokenProgram}
use stendar_l.Revolving.Facility.{Facility}
use stendar_l.Revolving.Draw.Effect.{draw_from_revolving-IsDrawn}
use stendar_l.Revolving.Repay.Effect.{repay_revolving-IsRepaid}
use stendar_l.Revolving.Close.Effect.{IsClosed, close_revolving_facility-IsClosed}
use stendar_l.Revolving.Close.Matured.{bot_close_matured_revolving-IsClosed}
use stendar_l.Revolving.Distribute.Effect.{distribute_standby_fees-IsDistributed}
use stendar_l.Revolving.Sweep.Effect.{sweep-cases}
use stendar_l.Lending.Leave.Recall.{request_recall-IsRecalled}
use stendar_l.Revolving.Solvency.{
  Step, draws, repays, closes, matures, distributes, sweeps, recalls, outside,
}

-- `valid_transitions().contains(&to)`
abbrev pub contains_status : ContractStatus → List ContractStatus → Bool
contains_status s [] = false
contains_status s (t ∷ ts) = status_eq s t || contains_status s ts

-- A status that stays or moves along the table.
abbrev pub Follows : ContractStatus → ContractStatus → Type 0
Follows from to = (to ≡ from) ⊎ (contains_status to (valid_transitions from) ≡ true)

completes :
    (from : ContractStatus)
    → (from ≡ ContractStatus.active) ⊎ (from ≡ ContractStatus.pending_recall)
    → contains_status ContractStatus.completed (valid_transitions from) ≡ true
completes from (inl e) = rw e refl
completes from (inr e) = rw e refl

follows :
    (from to : ContractStatus)
    → (from ≡ ContractStatus.active) ⊎ (from ≡ ContractStatus.pending_recall)
    → (to ≡ from) ⊎ (to ≡ ContractStatus.completed)
    → Follows from to
follows from to live (inl same) = inl same
follows from to live (inr e) = inr (rw e (completes from live))

closed-Follows : (f f' : Facility) → IsClosed f f' → Follows f.contract.status f'.contract.status
closed-Follows f f' closed =
    follows f.contract.status f'.contract.status (inl closed.was_active)
      (ground (arith, closed.status))

-- Over a token program as documented, each instruction of revolving.rs on a facility (a draw, a
-- repayment, a distribution, a closing by the borrower or by the bot, a sweep) and the request of a
-- recall leaves its status or moves it along the table of transitions.
pub Step-Follows :
    (r : Runtime)
    → IsTokenProgram r
    → (f f' : Facility) → Step r f f'
    → Follows f.contract.status f'.contract.status
Step-Follows r law f f' (draws _ _ c p amount now h) =
    let (admitted, drawn, paid) = draw_from_revolving-IsDrawn r f c p amount now f' h in
    inl (drawn.status ∙ sym admitted.active)
Step-Follows r law f f' (repays _ _ c amount now h) =
    let (admitted, repaid, paid) = repay_revolving-IsRepaid r f c amount now f' h in
    follows f.contract.status f'.contract.status admitted.live (ground (arith, repaid.status))
Step-Follows r law f f' (closes _ _ c k now h) =
    closed-Follows f f' (close_revolving_facility-IsClosed r f c k now f' h)
Step-Follows r law f f' (matures _ _ bot now h) =
    let (m, g, past, by, closed, kept, counted) =
      bot_close_matured_revolving-IsClosed f bot now f' h in
    closed-Follows f f' closed
Step-Follows r law f f' (distributes _ _ c now h) =
    let (distributed, d) = distribute_standby_fees-IsDistributed r law f c now f' h in
    follows f.contract.status f'.contract.status d.live (ground (arith, d.status))
Step-Follows r law f f' (sweeps _ _ c h) =
    let (m, same, key, moved) = sweep-cases r f c f' h in inl (ap (λ k. k.status) same)
Step-Follows r law f f' (recalls _ contribution lender now c' h) =
    let recalled =
      request_recall-IsRecalled f.state.is_paused f.contract contribution f.contract_key lender now
        c' h in
    inr (rw (recalled.was_active, recalled.pending) refl)
Step-Follows r law f f' (outside _ state treasury l a more) = inl refl
