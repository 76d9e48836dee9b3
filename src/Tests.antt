-- ===== src/Tests.antt =====
-- The theorems at concrete inputs.
mod Sorting
mod Allocator
mod Sessions
mod Exercise
mod Filter
mod Images
mod Trials
mod Caching
mod Rates
mod Reading
mod Directories
mod Numbers
mod Threads
mod Volumes
mod Smoking
