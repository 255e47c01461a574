-- ===== src/Fec.antt =====
-- crates/tzap-core/src/fec.rs: Reed-Solomon erasure coding over GF(2^16).
pub mod Field
pub mod Matrix
pub mod Shards
pub mod Repair
mod Examples
