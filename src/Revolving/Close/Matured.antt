-- ===== src/Revolving/Close/Matured.antt =====
-- What the bot's closing at maturity does (`bot_close_matured_revolving`).
use stendar_l.Base.{◌+◌, ◌≡◌, arith, inl, inr}
use stendar_l.Base.Int.{ℤ, ◌≤ℤ◌}
use stendar_l.Error.{StendarError, ok, err, Result-cases}
use stendar_l.State.Contract.{Pubkey, DebtContract}
use stendar_l.Revolving.Facility.{Facility, bring_up_to_date, maturity, count_operation}
use stendar_l.Revolving.Facility.UpToDate.{bring_up_to_date-SameTerms}
use stendar_l.Revolving.Close.{record_close, may_bot_close, bot_close_matured_revolving}
use stendar_l.Revolving.Close.Effect.{IsClosed, record_close-effect, bot_close_admitted}

-- The steps of the bot's instruction.
pub record MaturedSteps (f : Facility) (bot : Pubkey) (now end : ℤ) (accrued : DebtContract)
    (f' : Facility) : Type 0 where
  pub admitted : may_bot_close f bot ≡ ok tt
  pub matured : end ≤ℤ now
  pub recorded : record_close accrued 0 now ≡ ok f'.contract
  pub counted : f'.treasury.automated_operations ≡ f.treasury.automated_operations + 1
  pub tokens_kept : f'.tokens ≡ f.tokens
  pub debt : f'.state.total_debt ≡ f.state.total_debt
  pub same_key : f'.contract_key ≡ f.contract_key

matured_from-MaturedSteps :
    (f : Facility) (bot : Pubkey) (now end : ℤ) (f' : Facility) (accrued : DebtContract)
    → bot_close_matured_revolving f bot now ≡ ok f'
    → maturity f.contract ≡ ok end
    → bring_up_to_date f.contract now ≡ ok accrued
    → MaturedSteps f bot now end accrued f'
unfolding bot_close_matured_revolving count_operation
matured_from-MaturedSteps f bot now end f' accrued h m e = ground arith

matured_stops :
    (f : Facility) (bot : Pubkey) (now : ℤ) (f' : Facility) (e : StendarError)
    → bot_close_matured_revolving f bot now ≡ ok f'
    → maturity f.contract ≡ err e
    → ⊥
unfolding bot_close_matured_revolving
matured_stops f bot now f' e h g = ground arith

accrual_stops :
    (f : Facility) (bot : Pubkey) (now : ℤ) (f' : Facility) (e : StendarError)
    → bot_close_matured_revolving f bot now ≡ ok f'
    → bring_up_to_date f.contract now ≡ err e
    → ⊥
unfolding bot_close_matured_revolving
accrual_stops f bot now f' e h g = ground arith

matured-MaturedSteps :
    (f : Facility) (bot : Pubkey) (now : ℤ) (f' : Facility)
    → bot_close_matured_revolving f bot now ≡ ok f'
    → (end : ℤ) × (accrued : DebtContract) × (maturity f.contract ≡ ok end)
      × (bring_up_to_date f.contract now ≡ ok accrued)
      × MaturedSteps f bot now end accrued f'
matured-MaturedSteps f bot now f' h = elim (Result-cases (maturity f.contract)) [
  | inl (m, g) ↦ elim (Result-cases (bring_up_to_date f.contract now)) [
    | inl (a, e) ↦ (m, a, g, e, matured_from-MaturedSteps f bot now m f' a h g e)
    | inr (x, e) ↦ absurd (accrual_stops f bot now f' x h e)
  ]
  | inr (x, g) ↦ absurd (matured_stops f bot now f' x h g)
]

-- The bot's closing that succeeds was of an open, active facility at or past its maturity, and by
-- the bot's authority: it closes the facility as the borrower would, moves no tokens, and counts
-- one more operation in the treasury.
pub bot_close_matured_revolving-IsClosed :
    (f : Facility) (bot : Pubkey) (now : ℤ) (f' : Facility)
    → bot_close_matured_revolving f bot now ≡ ok f'
    → (end : ℤ) × (maturity f.contract ≡ ok end)
      × (end ≤ℤ now)
      × (f.treasury.bot_authority ≡ bot)
      × IsClosed f f'
      × (f'.tokens ≡ f.tokens)
      × (f'.treasury.automated_operations ≡ f.treasury.automated_operations + 1)
bot_close_matured_revolving-IsClosed f bot now f' h =
    let (m, a, g, e, s) = matured-MaturedSteps f bot now f' h in
    let admitted = bot_close_admitted f bot s.admitted in
    let same = bring_up_to_date-SameTerms f.contract now a admitted.0 e in
    let written = record_close-effect a 0 now f'.contract s.recorded in
    (m, g, s.matured, admitted.3, ground arith, s.tokens_kept, s.counted)
