-- ===== src/Wire.antt =====
-- crates/tzap-core/src/wire.rs: the structures of a volume, byte by byte.
pub mod Fields
mod Sealed
mod Samples
pub mod VolumeHeader
pub mod ManifestFooter
pub mod VolumeTrailer
pub mod CriticalMetadataRecoveryHeader
pub mod CriticalRecoveryLocator
pub mod BootstrapSidecarHeader
pub mod CryptoHeaderFixed
pub mod BlockRecord
pub mod Extensions
pub mod CriticalMetadataRecoveryShard
