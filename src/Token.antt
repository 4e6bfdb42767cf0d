-- ===== src/Token.antt =====
-- The wNEAR token contract, token/src.
pub mod State
pub mod Internal
pub mod Metadata
pub mod Core
pub mod Wrap
pub mod Registration
pub mod Supply
pub mod Calls
pub mod History
pub mod Transfers
pub mod Moves
pub mod Bounds
mod Examples
