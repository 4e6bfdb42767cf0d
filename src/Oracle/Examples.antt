-- ===== src/Oracle/Examples.antt =====
-- Tests and the theorems at concrete inputs.
pub mod Worlds
mod Staking
mod Claims
mod Calls
mod Requests
mod Savings
pub mod Histories
