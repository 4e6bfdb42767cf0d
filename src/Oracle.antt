-- ===== src/Oracle.antt =====
-- The oracle contract, oracle/src.
pub mod Types
pub mod Decimal
pub mod Helpers
pub mod Window
pub mod Active
pub mod Guards
pub mod Finalized
pub mod Access
pub mod Whitelisting
pub mod Configuration
pub mod Accounts
pub mod Validation
pub mod Governance
pub mod Handlers
pub mod Receiver
pub mod Examples
pub mod Logger
pub mod Upgrade
pub mod Views
pub mod Consistency
pub mod Treasury
