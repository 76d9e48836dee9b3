-- ===== src/Ext2/Opening.antt =====
-- `open_volume_file` of lab7/ext2.c. A superblock has 204 bytes and a group descriptor 32; the fields
-- that nothing uses, `volume_size` and `num_groups` among them, are left out of the result.
use cs_261_basics_of_compute.Prelude.{
  ℕ, ◌+◌, ◌*◌, Option, none, some, ltb, ◌==◌, if◌then◌else◌, ◌||◌,
}
use cs_261_basics_of_compute.Prelude.Run.{Run, ok, undefined}
use cs_261_basics_of_compute.Ext2.Defs.{Pread, Volume, block_size_of, num_groups_of, groups_offset}
use cs_261_basics_of_compute.Ext2.Path.{Bytes, receive, le16, le32}

abbrev pub ext2_offset_superblock : ℕ
ext2_offset_superblock = 1024

abbrev pub s_blocks_count : Bytes → ℕ
s_blocks_count super = le32 super 4

abbrev pub s_log_block_size : Bytes → ℕ
s_log_block_size super = le32 super 24

abbrev pub s_blocks_per_group : Bytes → ℕ
s_blocks_per_group super = le32 super 32

unfoldable pub volume_of : (super groups : Bytes) → Volume
volume_of super groups = record {
  s_inodes_per_group = le32 super 40;
  s_inode_size = le16 super 88;
  s_feature_ro_compat = le32 super 100;
  block_size = block_size_of (s_log_block_size super);
  bg_inode_table = λ g. le32 groups (32 * g + 8);
}

-- After the superblock has been read. A shift of 1024 by more than 20 leaves the `int`.
unfoldable pub open_groups : Pread → (super groups : Bytes) → Run (Option Volume)
open_groups pread super groups =
    if ltb 20 (s_log_block_size super) || (s_blocks_per_group super == 0)
    then undefined
    else (let num_groups = num_groups_of (s_blocks_count super) (s_blocks_per_group super) in
        let offset = groups_offset (block_size_of (s_log_block_size super)) in
        ok (some (volume_of super (receive (pread (32 * num_groups) offset) groups))))

-- `file` is what `open` gave, and `super` and `groups` what the memory held before.
unfoldable pub open_volume_file :
    (file : Option Pread) → (super groups : Bytes) → Run (Option Volume)
open_volume_file none super groups = ok none
open_volume_file (some pread) super groups =
    open_groups pread (receive (pread 204 ext2_offset_superblock) super) groups
