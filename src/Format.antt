-- ===== src/Format.antt =====
-- crates/tzap-core/src/format.rs: algorithm identifiers, errors, the format's constants.
mod Algos
mod Errors
mod Limits
mod Ids
mod Laws
pub use Algos.*
pub use Errors.*
pub use Limits.*
unfoldable pub use Ids.*
pub use Laws.*
