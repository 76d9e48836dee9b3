-- ===== src/Ext2.antt =====
-- lab7/ext2.c and lab7/ext2.h: reading an ext2 volume.
pub mod Defs
pub mod Content
pub mod Index
pub mod Numbers
pub mod Path
pub mod Directory
pub mod Lookup
pub mod Opening
pub mod Opened
pub mod Contiguous
