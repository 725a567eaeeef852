-- ===== src/Revolving.antt =====
-- The revolving facility (programs/stendar/src/instructions/revolving.rs), with the account
-- constraints of programs/stendar/src/contexts/revolving.rs. The children hold the state and the
-- instructions, and the theorems.
pub mod Facility
pub mod Pairs
pub mod Draw
pub mod Repay
pub mod Close
pub mod Distribute
pub mod Sweep
pub mod Solvency
