-- ===== src/Revolving/Solvency/Runs.antt =====
-- What holds over any sequence of the steps of a revolving facility.
use stendar_l.Base.{ℕ, true, ◌≡◌, ◌≢◌, ◌∙◌, sym, inr, arith}
use stendar_l.Base.Int.{ℤ}
use stendar_l.Error.{ok}
use stendar_l.State.Contract.{DebtContract}
use stendar_l.Ledger.{Runtime, IsTokenProgram}
use stendar_l.Revolving.Facility.{Facility, Caller}
use stendar_l.Revolving.Draw.{PriceAccounts, draw_from_revolving}
use stendar_l.Revolving.Draw.Effect.{draw_from_revolving-IsDrawn}
use stendar_l.Revolving.Repay.Effect.{repay_revolving-IsRepaid}
use stendar_l.Revolving.Close.Effect.{close_revolving_facility-IsClosed}
use stendar_l.Revolving.Close.Matured.{bot_close_matured_revolving-IsClosed}
use stendar_l.Revolving.Distribute.Effect.{distribute_standby_fees-IsDistributed}
use stendar_l.Revolving.Sweep.Effect.{sweep-cases}
use stendar_l.Lending.Leave.Recall.{IsRecalled, request_recall-IsRecalled}
use stendar_l.Revolving.Solvency.{
  IsSolvent, Step, Run, draws, repays, closes, matures, distributes, sweeps, recalls, outside, stop,
  next,
}
use stendar_l.Revolving.Solvency.Steps.{
  draw-IsSolvent, repay-IsSolvent, closed-IsSolvent, distributed-IsSolvent, sweep-IsSolvent,
}

recalled-IsSolvent :
    (f : Facility) (c' : DebtContract)
    → IsRecalled f.contract c'
    → IsSolvent f
    → IsSolvent (record f { contract = c' })
recalled-IsSolvent f c' recalled s =
    let nothing : c'.available_amount ≡ 0 = ground (arith, recalled.available, s.revolving) in
    record {
      revolving = recalled.revolving ∙ s.revolving;
      apart = λ e. s.apart (e ∙ recalled.borrower);
      balance = recalled.balance ∙ s.balance ∙ sym recalled.drawn;
      limit = omega (arith, nothing, recalled.drawn, recalled.limit, s.limit);
      backed = omega (arith, nothing);
      closed_lends_nothing = inr nothing;
      finished_lends_nothing = inr nothing;
    }

Step-IsSolvent :
    (r : Runtime) → IsTokenProgram r → (f f' : Facility) → Step r f f' → IsSolvent f → IsSolvent f'
Step-IsSolvent r law f f' (draws _ _ c p amount now h) s =
    draw-IsSolvent r law f f' c p amount now h s
Step-IsSolvent r law f f' (repays _ _ c amount now h) s =
    repay-IsSolvent r law f f' c amount now h s
Step-IsSolvent r law f f' (closes _ _ c k now h) s =
    closed-IsSolvent r law f f' (close_revolving_facility-IsClosed r f c k now f' h) s
Step-IsSolvent r law f f' (matures _ _ bot now h) s =
    let (m, g, past, by, closed, kept, counted) =
      bot_close_matured_revolving-IsClosed f bot now f' h in
    closed-IsSolvent r law f f' closed s
Step-IsSolvent r law f f' (distributes _ _ c now h) s =
    let (distributed, d) = distribute_standby_fees-IsDistributed r law f c now f' h in
    distributed-IsSolvent r law f f' c distributed d s
Step-IsSolvent r law f f' (sweeps _ _ c h) s = sweep-IsSolvent r law f f' c h s
Step-IsSolvent r law f f' (recalls _ contribution lender now c' h) s =
    recalled-IsSolvent f c'
      (request_recall-IsRecalled f.state.is_paused f.contract contribution f.contract_key lender now
        c' h)
      s
Step-IsSolvent r law f f' (outside _ state treasury l a more) s = record {
  revolving = s.revolving;
  apart = s.apart;
  balance = s.balance;
  limit = s.limit;
  backed = omega (arith, s.backed);
  closed_lends_nothing = s.closed_lends_nothing;
  finished_lends_nothing = s.finished_lends_nothing;
}

-- Over a token program as documented, and if nobody else takes from the contract's account, a
-- solvent facility stays solvent over any sequence of draws, repayments, distributions of standby
-- fees, closings by the borrower or by the bot, sweeps and requests of a recall that succeed: what may
-- be drawn stays in the contract's account, and drawn and available together stay within the limit.
-- Liquidations, other payments and changes of terms are not among these steps.
pub Run-IsSolvent :
    (r : Runtime) → IsTokenProgram r → (f f' : Facility) → Run r f f' → IsSolvent f → IsSolvent f'
Run-IsSolvent r law f f' (stop _) s = s
Run-IsSolvent r law f f' (next _ g _ step more) s =
    Run-IsSolvent r law g f' more (Step-IsSolvent r law f g step s)

Step-closed :
    (r : Runtime)
    → IsTokenProgram r
    → (f f' : Facility) → Step r f f'
    → f.contract.revolving_closed ≡ true
    → f'.contract.revolving_closed ≡ true
Step-closed r law f f' (draws _ _ c p amount now h) e =
    let (admitted, drawn, paid) = draw_from_revolving-IsDrawn r f c p amount now f' h in
    ground arith
Step-closed r law f f' (repays _ _ c amount now h) e =
    (repay_revolving-IsRepaid r f c amount now f' h).1.closed ∙ e
Step-closed r law f f' (closes _ _ c k now h) e =
    (close_revolving_facility-IsClosed r f c k now f' h).closed
Step-closed r law f f' (matures _ _ bot now h) e =
    let (m, g, past, by, closed, kept, counted) =
      bot_close_matured_revolving-IsClosed f bot now f' h in
    closed.closed
Step-closed r law f f' (distributes _ _ c now h) e =
    (distribute_standby_fees-IsDistributed r law f c now f' h).1.closed ∙ e
Step-closed r law f f' (sweeps _ _ c h) e =
    let (m, same, key, moved) = sweep-cases r f c f' h in rw same e
Step-closed r law f f' (recalls _ contribution lender now c' h) e =
    let recalled =
      request_recall-IsRecalled f.state.is_paused f.contract contribution f.contract_key lender now
        c' h in
    ground (arith, recalled.still_closed)
Step-closed r law f f' (outside _ state treasury l a more) e = e

Run-closed :
    (r : Runtime)
    → IsTokenProgram r
    → (f f' : Facility) → Run r f f'
    → f.contract.revolving_closed ≡ true
    → f'.contract.revolving_closed ≡ true
Run-closed r law f f' (stop _) e = e
Run-closed r law f f' (next _ g _ step more) e =
    Run-closed r law g f' more (Step-closed r law f g step e)

-- Over a token program as documented, after a facility is closed no draw succeeds any more, whichever
-- draws, repayments, distributions, closings, sweeps and requests of a recall succeed in between.
pub no_draw_after_close :
    (r : Runtime)
    → IsTokenProgram r
    → (f g : Facility) → Run r f g
    → f.contract.revolving_closed ≡ true
    → (c : Caller) (p : PriceAccounts) (amount : ℕ) (now : ℤ) (g' : Facility)
    → draw_from_revolving r g c p amount now ≢ ok g'
no_draw_after_close r law f g run closed c p amount now g' h =
    let still = Run-closed r law f g run closed in
    let (admitted, drawn, paid) = draw_from_revolving-IsDrawn r g c p amount now g' h in
    ground (arith, admitted.open_facility)
