-- ===== src/Mask.antt =====
-- lab6/mask.c, lab6/mask.h and `baseMask` of lab6/timemask.c: three versions of one image filter.
--
-- A `long` is its 64-bit pattern, and arithmetic wraps. An image is a function of row and column.
-- The old image, the new image and the weights are separate arrays, as in `main`.
pub mod Loop
pub mod Long
pub mod Defs
pub mod Sweep
pub mod Pass
pub mod Total
pub mod Pixel
pub mod Reorder
pub mod Kernel
pub mod Agree
pub mod Single
pub mod Equal
pub mod Compare
pub mod Pgm
pub mod Printed
pub mod RoundTrip
pub mod Main
pub mod Alike
pub mod Runs
pub mod Verdict
pub mod Saved
