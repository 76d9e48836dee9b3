-- ===== src/Heap.antt =====
-- lab5/implicit.c and lab5/implicit.h: an allocator over one region of memory, cut into blocks
-- that carry their size at both ends.
pub mod Layout
pub mod Search
pub mod Release
pub mod Create
pub mod Chain
pub mod Surgery
pub mod Policy
pub mod Prepare
pub mod Fit
pub mod NextFit
pub mod BestFit
pub mod Merge
pub mod Coalesce
pub mod Free
pub mod Created
pub mod Survey
pub mod Measured
pub mod Dangling
pub mod RoundTrip
pub mod Malloc
pub mod Words
pub mod Session
pub mod InUse
pub mod Orderly
