-- ===== src/Crypto.antt =====
-- internal/crypto/kuznyechik_mgm.go: the authenticated encryption over a block cipher.
pub mod Block
pub mod Ctr
pub mod Cmac
pub mod Aead
pub mod Examples
