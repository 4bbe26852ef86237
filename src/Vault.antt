-- ===== src/Vault.antt =====
-- packages/vault: the keys of a tenant, encrypted under its own data key, and who may read them.
pub mod Crypto
pub mod Types
pub mod Handle
pub mod Deks
pub mod Keys
pub mod State
pub mod Brain
pub mod Hands
pub mod Calls
pub mod Purged
pub mod Refusals
