-- ===== src/Tests/Reading.antt =====
-- Examples for the ext2 reader: blocks of 1024 bytes on a disk of bytes 7, and on one of zeros but for a
-- byte.
use cs_261_basics_of_compute.Prelude.{ℕ, if◌then◌else◌, ◌==◌, ◌+◌, ◌-◌, ◌*◌, ◌≡◌, refl, some, arith}
use cs_261_basics_of_compute.Ext2.Defs.{Pread, Volume, Inode, get_inode_block_no}
use cs_261_basics_of_compute.Ext2.Index.{bytes_of, word_at, get_inode_block_no-word_at}

abbrev sevens : ℕ → ℕ
sevens a = 7

abbrev pread : Pread
pread size offset = some (bytes_of sevens offset size)

abbrev volume : Volume
volume = record {
  s_inodes_per_group = 8;
  s_inode_size = 128;
  s_feature_ro_compat = 0;
  block_size = 1024;
  bg_inode_table = λ g. 5 + g;
}

abbrev file : Inode
file = record {
  i_mode = 0;
  i_uid = 0;
  i_atime = 0;
  i_ctime = 0;
  i_mtime = 0;
  i_gid = 0;
  i_links_count = 1;
  i_blocks = 6;
  i_size = 3000;
  i_block = λ k. 20 + k;
  i_block_1ind = 40;
  i_block_2ind = 41;
  i_block_3ind = 0;
  i_dir_acl = 0;
}

get_inode_block_no-word_at_example :
    get_inode_block_no pread volume 0 file 15 ≡ word_at sevens (1024 * 40 + 4 * (15 - 12))
get_inode_block_no-word_at_example =
    get_inode_block_no-word_at pread sevens (λ size offset. refl) volume 0 (omega arith) file 15
      (omega arith) (omega arith)

-- A disk of zeros but for one byte: the first word of block 41 is 50.
abbrev zeros : ℕ → ℕ
zeros a = if a == 1024 * 41 then 50 else 0

abbrev pread_zeros : Pread
pread_zeros size offset = some (bytes_of zeros offset size)
