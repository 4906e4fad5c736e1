-- ===== src/Kms.antt =====
-- internal/kms: of the KMS v2 plugin, the keeper of the master key and the provider that encrypts
-- under it.
pub mod KeyManager
pub mod Provider
