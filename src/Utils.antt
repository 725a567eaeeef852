-- ===== src/Utils.antt =====
-- programs/stendar/src/utils: the calculations that the instructions share.
pub mod Scale
pub mod Fees
pub mod Interest
pub mod Liquidation
pub mod Oracle
pub mod Valuation
