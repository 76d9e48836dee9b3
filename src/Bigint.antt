-- ===== src/Bigint.antt =====
-- lab4/bigint.c: big integers, most operations of which return NULL so far.
pub mod Defs
pub mod Digits
pub mod Order
