-- ===== src/RootAuth.antt =====
-- crates/tzap-core/src/root_auth.rs: the digests that a root authenticator signs.
pub mod Domains
pub mod Messages
pub mod Digests
pub mod Merkle
pub mod Current
mod Examples
