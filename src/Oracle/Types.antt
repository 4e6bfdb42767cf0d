-- ===== src/Oracle/Types.antt =====
-- The types of oracle/src: the structs as its struct literals and field accesses show them.
mod Answers
mod Configs
mod Requests
mod Worlds
pub use Answers.*
pub use Configs.*
pub use Requests.*
pub use Worlds.*
