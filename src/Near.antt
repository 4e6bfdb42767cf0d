-- ===== src/Near.antt =====
-- What both contracts take from the runtime: a call that returns or panics, checked machine
-- arithmetic, and persistent maps.
mod Calls
mod Words
mod Maps
unfoldable pub use Calls.*
unfoldable pub use Words.*
unfoldable pub use Maps.*
