-- ===== src/Metadata.antt =====
-- crates/tzap-core/src/metadata.rs: the index of an archive.
pub mod Rows
pub mod Order
pub mod Samples
pub mod Search
pub mod Lookup
pub mod Frames
pub mod Paths
pub mod Candidates
pub mod Layout
pub mod Envelopes
