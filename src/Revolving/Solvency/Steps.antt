-- ===== src/Revolving/Solvency/Steps.antt =====
-- Every instruction keeps a facility solvent.
use stendar_l.Base.{ℕ, ◌≤◌, ◌≡◌, ◌∙◌, sym, inl, inr, arith, ap, refl}
use stendar_l.Base.Int.{ℤ}
use stendar_l.Error.{ok}
use stendar_l.Ledger.{Runtime, IsTokenProgram}
use stendar_l.Ledger.Balances.{owners_differ}
use stendar_l.Revolving.Facility.{Facility, Caller, can_sweep_contract_pool}
use stendar_l.Revolving.Draw.{PriceAccounts, draw_from_revolving}
use stendar_l.Revolving.Draw.Effect.{draw_from_revolving-IsDrawn}
use stendar_l.Revolving.Repay.{repay_revolving}
use stendar_l.Revolving.Repay.Effect.{repay_revolving-IsRepaid}
use stendar_l.Revolving.Sweep.{sweep_contract_pool}
use stendar_l.Revolving.Sweep.Effect.{sweep-cases, may_sweep-AdmittedSweep}
use stendar_l.Revolving.Close.Effect.{IsClosed}
use stendar_l.Revolving.Distribute.Effect.{IsDistributed}
use stendar_l.Revolving.Solvency.{IsSolvent}

module _ (r : Runtime) (law : IsTokenProgram r) where
  pub draw-IsSolvent :
      (f f' : Facility) (c : Caller) (p : PriceAccounts) (amount : ℕ) (now : ℤ)
      → draw_from_revolving r f c p amount now ≡ ok f'
      → IsSolvent f
      → IsSolvent f'
  unfolding can_sweep_contract_pool
  draw-IsSolvent f f' c p amount now h s =
      let (admitted, drawn, paid) = draw_from_revolving-IsDrawn r f c p amount now f' h in
      let two =
        owners_differ f.tokens c.contract_usdc_account c.borrower_usdc_account f.contract_key
          c.signer admitted.from_contract admitted.to_borrower
          (λ e. s.apart (e ∙ sym admitted.by_borrower)) in
      let moved =
        law.moves f.tokens f'.tokens c.contract_usdc_account c.borrower_usdc_account f.contract_key
          amount paid two in
      let held : f.contract.available_amount ≤ (f.tokens c.contract_usdc_account).amount =
        rw admitted.vault s.backed in
      let left : f'.contract.available_amount ≤ (f'.tokens c.contract_usdc_account).amount =
        omega (arith, moved.0, drawn.available) in
      record {
        revolving = drawn.revolving;
        apart = λ e. s.apart (sym drawn.key ∙ e ∙ drawn.borrower);
        balance = drawn.balance;
        limit = omega (arith, s.limit, drawn.limit, drawn.drawn, drawn.available);
        backed = rw (drawn.vault, ← admitted.vault) left;
        closed_lends_nothing = inl drawn.open_facility;
        finished_lends_nothing = inl (rw drawn.status refl);
      }

  pub repay-IsSolvent :
      (f f' : Facility) (c : Caller) (amount : ℕ) (now : ℤ)
      → repay_revolving r f c amount now ≡ ok f'
      → IsSolvent f
      → IsSolvent f'
  unfolding can_sweep_contract_pool
  repay-IsSolvent f f' c amount now h s =
      let (admitted, repaid, paid) = repay_revolving-IsRepaid r f c amount now f' h in
      let two =
        owners_differ f.tokens c.contract_usdc_account c.borrower_usdc_account f.contract_key
          c.signer admitted.to_contract admitted.from_borrower
          (λ e. s.apart (e ∙ sym admitted.by_borrower)) in
      let moved =
        law.moves f.tokens f'.tokens c.borrower_usdc_account c.contract_usdc_account c.signer amount
          paid (λ e. two (sym e)) in
      let held : f.contract.available_amount ≤ (f.tokens c.contract_usdc_account).amount =
        rw admitted.vault s.backed in
      let filled : f'.contract.available_amount ≤ (f'.tokens c.contract_usdc_account).amount =
        ground arith in
      record {
        revolving = repaid.revolving;
        apart = λ e. s.apart (sym repaid.key ∙ e ∙ repaid.borrower);
        balance = repaid.balance;
        limit = ground arith;
        backed = rw (repaid.vault, ← admitted.vault) filled;
        closed_lends_nothing = ground arith;
        finished_lends_nothing = ground arith;
      }

  -- A closing leaves nothing to draw, so only the terms matter.
  pub closed-IsSolvent : (f f' : Facility) → IsClosed f f' → IsSolvent f → IsSolvent f'
  closed-IsSolvent f f' closed s = record {
    revolving = closed.revolving;
    apart = λ e. s.apart (sym closed.key ∙ e ∙ closed.borrower);
    balance = closed.balance ∙ s.balance ∙ sym closed.drawn;
    limit = omega (arith, s.limit, closed.drawn, closed.available, closed.limit);
    backed = omega (arith, closed.available);
    closed_lends_nothing = inr closed.available;
    finished_lends_nothing = inr closed.available;
  }

  pub distributed-IsSolvent :
      (f f' : Facility) (c : Caller) (distributed : ℕ)
      → IsDistributed f c distributed f'
      → IsSolvent f
      → IsSolvent f'
  unfolding can_sweep_contract_pool
  distributed-IsSolvent f f' c distributed d s =
      let vault = d.at_most f.contract.loan_token_account in
      let filled : f'.contract.available_amount ≤ (f'.tokens f.contract.loan_token_account).amount =
        ground arith in
      record {
        revolving = d.revolving;
        apart = λ e. s.apart (sym d.key ∙ e ∙ d.borrower);
        balance = d.balance ∙ s.balance ∙ sym d.drawn;
        limit = ground arith;
        backed = rw d.vault filled;
        closed_lends_nothing = ground arith;
        finished_lends_nothing = ground arith;
      }

  pub sweep-IsSolvent :
      (f f' : Facility) (c : Caller)
      → sweep_contract_pool r f c ≡ ok f'
      → IsSolvent f
      → IsSolvent f'
  unfolding can_sweep_contract_pool
  sweep-IsSolvent f f' c h s =
      let (m, same, key, moved) = sweep-cases r f c f' h in
      let admitted = may_sweep-AdmittedSweep f c m in
      let nothing : f.contract.available_amount ≡ 0 = ground arith in
      record {
        revolving = rw same s.revolving;
        apart = λ e. s.apart (sym key ∙ e ∙ ap (λ k. k.borrower) same);
        balance = rw same s.balance;
        limit = rw same s.limit;
        backed = rw (same, nothing) (omega arith);
        closed_lends_nothing = inr (rw same nothing);
        finished_lends_nothing = inr (rw same nothing);
      }
