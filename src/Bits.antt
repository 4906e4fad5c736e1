-- ===== src/Bits.antt =====
-- Exclusive or on numbers: its laws at variables, and the functions that respect it.
pub mod Step
pub mod Xor
pub mod Shift
pub mod Linear
