-- ===== src/Tests/Volumes.antt =====
-- Examples for an open volume: 1000 blocks of 1024 bytes in groups of 8192, with 8 inodes of 128 bytes in
-- a group, whose table is in block 5.
use cs_261_basics_of_compute.Prelude.{ℕ, ◌+◌, ◌*◌, ◌≡◌, refl, some, ◌==◌, if◌then◌else◌, arith}
use cs_261_basics_of_compute.Prelude.Run.{ok}
use cs_261_basics_of_compute.Ext2.Defs.{Pread, Volume, read_inode}
use cs_261_basics_of_compute.Ext2.Index.{bytes_of}
use cs_261_basics_of_compute.Ext2.Path.{Bytes}
use cs_261_basics_of_compute.Ext2.Opening.{open_volume_file}
use cs_261_basics_of_compute.Ext2.Opened.{IsOpened, open_volume_file-IsOpened, read_inode-IsOpened}

abbrev disk : ℕ → ℕ
disk a =
    if a == 1028
    then 232
    else if a == 1029
    then 3
    else if a == 1057
    then 32
    else if a == 1064
    then 8
    else if a == 1112
    then 128
    else if a == 2056
    then 5
    else 0

abbrev pread : Pread
pread size offset = some (bytes_of disk offset size)

abbrev junk : Bytes
junk k = 255

open_volume_file-IsOpened_example :
    (v : Volume) × (open_volume_file (some pread) junk junk ≡ ok (some v)) × IsOpened disk v
open_volume_file-IsOpened_example =
    open_volume_file-IsOpened pread disk (λ size offset. refl) junk junk (omega arith) (omega arith)
      (omega arith)

abbrev volume : Volume
volume = record {
  s_inodes_per_group = 8;
  s_inode_size = 128;
  s_feature_ro_compat = 0;
  block_size = 1024;
  bg_inode_table = λ g. if g == 0 then 5 else 0;
}

volume-IsOpened : IsOpened disk volume
volume-IsOpened = record {
  inodes_per_group = refl;
  inode_size = refl;
  feature_ro_compat = refl;
  block_size = refl;
  inode_table = λ g lt. let first : g ≡ 0 = omega (arith, lt) in rw first refl;
}

-- The inode 3, which is at place 2 of the table.
read_inode-IsOpened_example :
    read_inode pread volume (0 * 8 + 2 + 1) ≡ some (bytes_of disk (1024 * 5 + 2 * 128) 128)
read_inode-IsOpened_example =
    read_inode-IsOpened pread disk (λ size offset. refl) volume 0 2 volume-IsOpened (omega arith)
      (omega arith) (omega arith) (omega arith)
