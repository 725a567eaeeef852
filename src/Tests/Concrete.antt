-- ===== src/Tests/Concrete.antt =====
-- A runtime with a token program that refuses an overdraft and a wrong authority, and the accounts
-- of one revolving facility with two lenders.
use Prim.Native.String.{len}
use stendar_l.Base.{
  ℕ, true, false, ◌+◌, ◌-◌, ◌*◌, ◌≡◌, ◌≢◌, ◌≤◌, ap, ◌&&◌, arith, none, some, List, [], ◌∷◌, leb,
  ◌==◌, if◌then◌else◌,
}
use stendar_l.Base.Int.{pos}
use stendar_l.Error.{StendarError, Result, ok, err}
use stendar_l.State.Enums.{
  ContractStatus, LoanType, PaymentFrequency, FundingAccessMode, InterestPaymentType,
  PrincipalPaymentType,
}
use stendar_l.State.Contract.{Pubkey, DebtContract}
use stendar_l.State.Accounts.{LenderContribution, LenderEscrow}
use stendar_l.Ledger.{Ledger, Seed, Runtime, Accounts, IsTokenProgram}
use stendar_l.Revolving.Facility.{Facility, Caller}

abbrev pub put : Ledger → Pubkey → ℕ → Ledger
put l k n j = if j == k then (record (l k) { amount = n }) else l j

abbrev pub simple_transfer : Ledger → Pubkey → Pubkey → Pubkey → ℕ → Result Ledger
simple_transfer l from to by n =
    if leb n (l from).amount && (l from).owner == by
    then ok (let l1 = put l from ((l from).amount - n) in put l1 to ((l1 to).amount + n))
    else err StendarError.external

-- The ledger after a transfer of `n`.
abbrev moved : Ledger → Pubkey → Pubkey → ℕ → Ledger
moved l from to n = let l1 = put l from ((l from).amount - n) in put l1 to ((l1 to).amount + n)

simple_transfer-ok :
    (l l' : Ledger) (from to by : Pubkey) (n : ℕ)
    → simple_transfer l from to by n ≡ ok l'
    → (n ≤ (l from).amount) × (l' ≡ moved l from to n)
simple_transfer-ok l l' from to by n h = ground arith

simple_transfer-at :
    (l l' : Ledger) (from to by : Pubkey) (n : ℕ) (j : Pubkey)
    → simple_transfer l from to by n ≡ ok l'
    → l' j ≡ moved l from to n j
simple_transfer-at l l' from to by n j h = ap (λ m. m j) (simple_transfer-ok l l' from to by n h).1

moved-balances :
    (l : Ledger) (from to : Pubkey) (n : ℕ)
    → n ≤ (l from).amount
    → from ≢ to
    → ((moved l from to n from).amount + n ≡ (l from).amount)
      × ((moved l from to n to).amount ≡ (l to).amount + n)
moved-balances l from to n h ne = ground arith

moved_self :
    (l : Ledger) (k : Pubkey) (n : ℕ) (j : Pubkey)
    → n ≤ (l k).amount
    → (moved l k k n j).amount ≡ (l j).amount
moved_self l k n j h = ground arith

moved-others :
    (l : Ledger) (from to : Pubkey) (n : ℕ) (k : Pubkey)
    → k ≢ from
    → k ≢ to
    → moved l from to n k ≡ l k
moved-others l from to n k p q = ground arith

moved-kept :
    (l : Ledger) (from to : Pubkey) (n : ℕ) (k : Pubkey)
    → ((moved l from to n k).owner ≡ (l k).owner) × ((moved l from to n k).mint ≡ (l k).mint)
moved-kept l from to n k = ground arith

abbrev pub simple_address : List Seed → Pubkey
simple_address (Seed.text t ∷ Seed.key a ∷ Seed.key b ∷ []) = len t * 1_000 + b
simple_address _ = 100

abbrev pub simple_runtime : Runtime
simple_runtime = record {
  program_id = 7;
  find_program_address = simple_address;
  transfer = simple_transfer;
  read_price = λ k. none;
}

pub simple_runtime-IsTokenProgram : IsTokenProgram simple_runtime
simple_runtime-IsTokenProgram = record {
  moves = λ l l' from to by n h ne.
      let balances = moved-balances l from to n (simple_transfer-ok l l' from to by n h).0 ne in
      rw (simple_transfer-at l l' from to by n from h, simple_transfer-at l l' from to by n to h)
        balances;
  stays = λ l l' k by n j h.
      rw (simple_transfer-at l l' k k by n j h)
        (moved_self l k n j (simple_transfer-ok l l' k k by n h).0);
  others = λ l l' from to by n k h p q.
      rw (simple_transfer-at l l' from to by n k h) (moved-others l from to n k p q);
  kept = λ l l' from to by n k h.
      rw (simple_transfer-at l l' from to by n k h) (moved-kept l from to n k);
}

-- The accounts of the facility: the contract is 100, its token account 50, the borrower 5 with the
-- token account 51, the bot 9, the treasury 60 with the token account 61, and the lenders 1 and 2.
abbrev pub example_contract : DebtContract
example_contract = record {
  borrower = 5;
  contract_seed = 0;
  target_amount = 1_000;
  funded_amount = 1_000;
  interest_rate = 1_000;
  term_days = 30;
  collateral_amount = 0;
  loan_type = LoanType.committed;
  ltv_ratio = 0;
  interest_payment_type = InterestPaymentType.outstanding_balance;
  principal_payment_type = PrincipalPaymentType.no_fixed_payment;
  interest_frequency = PaymentFrequency.monthly;
  principal_frequency = none;
  created_at = pos 1_000;
  status = ContractStatus.active;
  num_contributions = 2;
  outstanding_balance = 200;
  accrued_interest = 0;
  last_interest_update = pos 1_000;
  last_principal_payment = pos 0;
  total_principal_paid = 0;
  contributions = 12_001 ∷ 12_002 ∷ [];
  last_bot_update = pos 0;
  next_interest_payment_due = pos 0;
  next_principal_payment_due = pos 0;
  bot_operation_count = 0;
  max_lenders = 14;
  partial_funding_flag = 0;
  expires_at = pos 0;
  allow_partial_fill = false;
  min_partial_fill_bps = 0;
  listing_fee_paid = 0;
  funding_access_mode = FundingAccessMode.anyone;
  has_active_proposal = false;
  proposal_count = 0;
  uncollectable_balance = 0;
  total_prepayment_fees = 0;
  account_version = 1;
  contract_version = 1;
  collateral_mint = 0;
  collateral_token_account = 0;
  collateral_value_at_creation = 0;
  ltv_floor_bps = 0;
  loan_mint = 70;
  loan_token_account = 50;
  recall_requested = false;
  recall_requested_at = pos 0;
  recall_requested_by = 0;
  is_revolving = true;
  credit_limit = 1_000;
  drawn_amount = 200;
  available_amount = 800;
  standby_fee_rate = 100;
  accrued_standby_fees = 10;
  last_standby_fee_update = pos 1_000;
  total_draws = 1;
  total_standby_fees_paid = 0;
  revolving_closed = false;
  frontend = 0;
}

abbrev pub contribution_of : Pubkey → ℕ → LenderContribution
contribution_of lender amount = record {
  lender = lender;
  contract = 100;
  contribution_amount = amount;
  total_interest_claimed = 0;
  total_principal_claimed = 0;
  last_claim_timestamp = pos 0;
  is_refunded = false;
  created_at = pos 0;
  last_contributed_at = pos 0;
  account_version = 1;
}

abbrev pub escrow_of : Pubkey → LenderEscrow
escrow_of lender = record {
  lender = lender;
  contract = 100;
  escrow_amount = 0;
  available_interest = 0;
  available_principal = 0;
  total_claimed = 0;
  is_released = false;
  created_at = pos 0;
  escrow_token_account = 0;
  account_version = 1;
}

abbrev pub example_tokens : Ledger
example_tokens k =
    if k == 50
    then record { owner = 100; mint = 70; amount = 900 }
    else if k == 51
    then record { owner = 5; mint = 70; amount = 300 }
    else if k == 61
    then record { owner = 60; mint = 70; amount = 0 }
    else if k == 6_101
    then record { owner = 6_001; mint = 70; amount = 0 }
    else if k == 6_102
    then record { owner = 6_002; mint = 70; amount = 0 }
    else record { owner = 0; mint = 0; amount = 0 }

abbrev pub example_accounts : Accounts
example_accounts = record {
  owner_of = λ k. 7;
  is_token_account = λ k. true;
  contribution_at = λ k.
      if k == 12_001
      then some (contribution_of 1 600)
      else if k == 12_002
      then some (contribution_of 2 400)
      else none;
  escrow_at = λ k.
      if k == 6_001 then some (escrow_of 1) else if k == 6_002 then some (escrow_of 2) else none;
}

abbrev pub example_facility : Facility
example_facility = record {
  contract_key = 100;
  contract = example_contract;
  state = record {
    authority = 4;
    total_debt = 200;
    total_collateral = 0;
    total_interest_paid = 0;
    total_liquidations = 0;
    total_partial_liquidations = 0;
    total_contracts = 1;
    platform_fee_basis_points = 0;
    pool_deposit_fee_bps = 0;
    pool_yield_fee_bps = 0;
    primary_listing_fee_bps = 0;
    secondary_listing_fee_bps = 0;
    secondary_buyer_fee_bps = 0;
    is_paused = false;
    account_version = 1;
  };
  treasury_key = 60;
  treasury = record {
    authority = 4;
    pending_authority = 0;
    bot_authority = 9;
    fees_collected = 0;
    transaction_costs = 0;
    automated_operations = 0;
    total_contracts_processed = 0;
    last_update = pos 0;
    created_at = pos 0;
    usdc_mint = 70;
    treasury_usdc_account = 61;
    total_liquidation_fees = 0;
    total_recall_fees = 0;
    account_version = 1;
  };
  tokens = example_tokens;
  accounts = example_accounts;
}

-- The borrower's call, with the pairs of both lenders, out of order.
abbrev pub example_caller : Caller
example_caller = record {
  signer = 5;
  borrower_usdc_account = 51;
  contract_usdc_account = 50;
  remaining_accounts = 12_002 ∷ 6_002 ∷ 12_001 ∷ 6_001 ∷ [];
}

-- The bot's call, with three accounts for each lender.
abbrev pub example_bot : Caller
example_bot = record {
  signer = 9;
  borrower_usdc_account = 51;
  contract_usdc_account = 50;
  remaining_accounts = 12_002 ∷ 6_002 ∷ 6_102 ∷ 12_001 ∷ 6_001 ∷ 6_101 ∷ [];
}

-- What a run returns, or a default.
abbrev pub result_or {ℓ} : {A : Type ℓ} → A → Result A → A
result_or a (ok b) = b
result_or a (err e) = a
