-- ===== src/Fuse.antt =====
-- lab7/ext2fs.c: the file system that FUSE calls, on the reader of lab7/ext2.c.
pub mod Defs
pub mod Listing
pub mod Opening
pub mod Reading
