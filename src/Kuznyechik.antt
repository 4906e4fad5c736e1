-- ===== src/Kuznyechik.antt =====
-- internal/kuznyechik: the block cipher of GOST R 34.12-2015. `Tables` and `Cipher` are the code,
-- `Gost` is the cipher as the standard writes it, and the rest relates the two.
pub mod Tables
pub mod Cipher
pub mod Gost
pub mod Examples
pub mod Mix
pub mod Rows
pub mod Halves
pub mod Rounds
pub mod Correct
pub mod Schedule
pub mod Bytes
pub mod Laws
