-- ===== src/Tests.antt =====
-- Concrete runs: a token program and a facility, and one instance of each result that has hypotheses.
pub mod Concrete
pub mod Runs
mod Revolving
mod Utils
mod Pools
mod Lending
mod State
