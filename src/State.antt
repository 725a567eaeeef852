-- ===== src/State.antt =====
-- The program's accounts (programs/stendar/src/state).
pub mod Enums
pub mod Contract
pub mod Accounts
pub mod Treasury
pub mod Pools
