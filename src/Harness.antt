-- ===== src/Harness.antt =====
-- lab5/implicit-test.c: the program that runs the three policies of the allocator side by side, on
-- requests and releases that it draws at random.
pub mod Draw
pub mod Defs
pub mod Lists
pub mod Kept
pub mod Rounds
pub mod Started
pub mod Odd
