-- ===== src/Kuznyechik/Rows.antt =====
-- The rows of `t` and `it`, checked by evaluation.
pub mod Test
pub mod Forward
pub mod Inverse
pub mod Boxes
