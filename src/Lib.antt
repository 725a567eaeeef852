-- ===== src/Lib.antt =====
-- A model of the Stendar lending program (programs/stendar), an Anchor program in Rust in which
-- lenders fund debt contracts, borrowers draw and repay, and a bot services the contracts.
--
-- The parts of the program. programs/stendar/src/state holds the accounts: the debt contract, a
-- lender's contribution and escrow, the platform's state, the treasury. src/utils holds the
-- arithmetic that all instructions share: fees, interest, liquidation, oracle values, the valuation
-- of positions. src/instructions holds one handler for each instruction, and src/contexts the
-- constraints that Anchor checks on its accounts before the handler runs.
--
-- The files, and what they model:
--   Base, Base/*        booleans, lists of keys, the integers of time stamps, and Rust's checked
--                       and saturating arithmetic on words.
--   Error               errors.rs; a handler is a function into Result.
--   State/*             state/enums.rs and state/mod.rs: Enums, Contract (DebtContract and its
--                       methods), Accounts (State, LenderContribution, LenderEscrow, the
--                       collateral registry), Treasury (with its methods; Authority
--                       is about who may call them), and Pools for state/pools.rs, whose History
--                       is about the ring of rate changes.
--   Utils/*             utils/mod.rs (Scale), fees.rs (Fees), interest.rs (Interest),
--                       liquidation.rs (Liquidation), oracle.rs (Oracle), trading.rs (Valuation);
--                       the children of each state its laws.
--   Ledger              what lies outside the program: token balances, derived addresses, prices.
--   Revolving/*         instructions/revolving.rs with contexts/revolving.rs: Facility (the
--                       accounts and the shared tests), Pairs (the lenders' accounts of a call),
--                       Draw, Repay, Close, Distribute, Sweep (one instruction each, Close both
--                       closings), Solvency (runs of these instructions and of request_recall;
--                       other instructions that write a contract are no steps of a run).
--   Pools, Pools/*      instructions/pools.rs with contexts/pools.rs: Pools and Yield (the accrual of
--                       yield), Call (the accounts of a call and the helpers), Fees (in
--                       Payees, to whom a fee goes), Deposit,
--                       Withdraw (all four ways in which principal leaves; Exits is about when),
--                       Claim (claims, compounding), Changes (creation, terms, pausing, closing),
--                       Deploy (the pool as a lender), Books (the totals against all deposits, and
--                       Runs of the instructions).
--   Lending, Lending/*  of instructions/lending.rs the rules that its handlers share, Funding
--                       (a contribution, the activation of a contract, and in Opening the facility
--                       of Revolving that it becomes), Leave (how lenders take their money out, and
--                       the request of a recall) and Liquidate (the state changes of a
--                       liquidation).
--   Tests/*             a concrete token program, runs of the instructions, and an instance of each
--                       result.
--
-- Names are those of the source. A handler is split where it is long: may_* are its tests up to the
-- clock, record_* its writes to the contract, and the function of the handler's name composes them
-- in the order of the source. An instruction that fails changes nothing, since the runtime rolls
-- back a transaction: an error carries no state. The time is an argument, the value of the clock.
--
-- Words are natural numbers with every overflow check written out; a signed time stamp is an
-- integer. Keys are numbers, and Pubkey::default() is 0. Loops run over the list of accounts or over
-- the number of entries of the rate history, so they need no fuel.
--
-- Parameters. The token program, Pubkey::find_program_address and the price accounts are not part
-- of the repository: Ledger.Runtime holds them. IsTokenProgram states what is documented of a token
-- transfer that succeeds: it moves the amount between two accounts, keeps their owners and mints,
-- and touches no other account. It is met by the token program of Tests/Concrete.
--
-- Not modelled: the features testing and mainnet; log lines and events; the reserved bytes, the bump
-- and the names in an account; the byte layout of accounts (an account is what it deserializes to, if
-- it does). Of lending, the creation, cancellation and expiry of contracts, the handlers of
-- liquidation and the repayment of a recall are not here yet; the instructions of payments, the
-- secondary market, proposals, collateral and administration are not, nor the SDK and the scripts. So
-- a run of Revolving/Solvency says nothing of what these do to a facility: a partial liquidation, for
-- one, makes more available than the contract's account may hold.
pub mod Base
pub mod Error
pub mod State
pub mod Utils
pub mod Ledger
pub mod Revolving
pub mod Pools
pub mod Lending
pub mod Tests
