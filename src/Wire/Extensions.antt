-- ===== src/Wire/Extensions.antt =====
-- The extensions of a crypto header: `ExtensionTlv` and its scanner in
-- crates/tzap-core/src/wire.rs.
pub mod Scan
pub mod Codec
pub mod Semantics
pub mod RawStream
mod Examples
unfoldable pub use Scan.*
