-- ===== src/Cache.antt =====
-- lab6/cache.c and lab6/cache.h: a set-associative read cache.
pub mod Defs
pub mod Order
pub mod Hit
pub mod Mirror
pub mod Fresh
pub mod Sums
pub mod Totals
pub mod Direct
pub mod Rows
pub mod Stays
pub mod Sweep
pub mod Columns
pub mod Filled
pub mod Rates
