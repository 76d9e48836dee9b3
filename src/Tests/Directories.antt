-- ===== src/Tests/Directories.antt =====
-- Examples for directories, paths and the callbacks of FUSE: a directory with one entry, "a", at its
-- byte 12. The number of the entry is 0, and the buffer holds 77.
use Prim.Native.Nat.{min}
use cs_261_basics_of_compute.Prelude.{
  ℕ, zero, suc, ◌+◌, ◌-◌, ◌≡◌, ◌≤◌, refl, some, List, [], ◌∷◌, ◌==◌, if◌then◌else◌, arith, length,
}
use cs_261_basics_of_compute.Prelude.Int.{pos}
use cs_261_basics_of_compute.Prelude.Run.{ok}
use cs_261_basics_of_compute.Ext2.Defs.{Pread, Volume, Inode, inode_file_size}
use cs_261_basics_of_compute.Ext2.Index.{bytes_of}
use cs_261_basics_of_compute.Ext2.Content.{IsBounded}
use cs_261_basics_of_compute.Ext2.Path.{
  Bytes, Junk, Found, inode_at, find_file_in_directory, find_file_below, path_loop, path_step,
  found_at, find_file_from_path,
}
use cs_261_basics_of_compute.Ext2.Directory.{
  IsString, agree, any_from, window, find_file_in_directory-any_from,
}
use cs_261_basics_of_compute.Ext2.Lookup.{is_component, find_file_from_path-de_inode_no}
use cs_261_basics_of_compute.Fuse.Defs.{
  Stat, stat_of, has_directory_mode, opens_for_writing, ext2_open, ext2_readdir, ext2_read,
  ext2_readlink,
}
use cs_261_basics_of_compute.Fuse.Listing.{Denied, ext2_readdir-Denied}
use cs_261_basics_of_compute.Fuse.Opening.{ext2_open_lem}
use cs_261_basics_of_compute.Fuse.Reading.{
  Served, Unlinked, ext2_read-Served, ext2_readlink-Unlinked,
}

abbrev disk : ℕ → ℕ
disk a = if a == 20500 then 97 else 0

abbrev pread : Pread
pread size offset = some (bytes_of disk offset size)

bytes_of-length : (size offset : ℕ) → length (bytes_of disk offset size) ≤ size
unfolding bytes_of
bytes_of-length zero offset = omega arith
bytes_of-length (suc n) offset = omega (arith, bytes_of-length n (offset + 1))

pread-IsBounded : IsBounded pread
pread-IsBounded size offset bytes e =
    let same : bytes_of disk offset size ≡ bytes = cc in rw same at (bytes_of-length size offset)

abbrev volume : Volume
volume = record {
  s_inodes_per_group = 8;
  s_inode_size = 128;
  s_feature_ro_compat = 0;
  block_size = 1024;
  bg_inode_table = λ g. 5 + g;
}

abbrev directory : Inode
directory = record {
  i_mode = 16384;
  i_uid = 0;
  i_atime = 0;
  i_ctime = 0;
  i_mtime = 0;
  i_gid = 0;
  i_links_count = 1;
  i_blocks = 2;
  i_size = 24;
  i_block = λ k. 20 + k;
  i_block_1ind = 0;
  i_block_2ind = 0;
  i_block_3ind = 0;
  i_dir_acl = 0;
}

abbrev zeros : Bytes
zeros k = 0

abbrev name_a : Bytes
name_a k = if k == 0 then 97 else 0

abbrev buffer : Bytes
buffer k = if k == 0 then 77 else 0

name_a-IsString : IsString name_a 1
name_a-IsString = (refl, λ j l e. ground arith)

find_file_in_directory-any_from_example :
    find_file_in_directory pread volume 0 zeros directory name_a buffer ≡ ok 77
unfolding any_from agree window inode_file_size
find_file_in_directory-any_from_example =
    find_file_in_directory-any_from pread disk (λ size offset. refl) volume 0 directory
      (omega arith) (λ b l. omega arith) name_a 1 (omega arith) name_a-IsString buffer zeros refl
      (omega arith)

abbrev junk : Junk
junk = record { inode = zeros; buffer = buffer; name = zeros; curr = zeros }

-- "/ab"
abbrev path_ab : List ℕ
path_ab = 47 ∷ 97 ∷ 98 ∷ []

-- An uninitialised inode of a regular file of 100 bytes, with mode 0x8000.
abbrev stale : Bytes
stale k = if k == 1 then 128 else if k == 4 then 100 else 0

find_file_from_path-de_inode_no_example :
    find_file_from_path pread volume 0 junk path_ab stale
    ≡ ok (record { number = 77; dest_inode = stale })
unfolding is_component
find_file_from_path-de_inode_no_example =
    find_file_from_path-de_inode_no pread volume 0 junk 97 (98 ∷ []) stale refl (omega arith)

ext2_readdir-Denied_example : Denied (ext2_readdir pread volume 0 junk zeros stale path_ab)
ext2_readdir-Denied_example = ext2_readdir-Denied pread volume 0 junk zeros stale path_ab

ext2_open_lem_example :
    ext2_open pread volume 0 junk junk stale path_ab 0 5 ≡ ok (record { code = pos 0; left = 77 })
unfolding has_directory_mode inode_at opens_for_writing is_component
ext2_open_lem_example =
    ext2_open_lem pread volume 0 junk junk stale 97 (98 ∷ []) refl (omega arith) 0 5

abbrev empty_stat : Stat
empty_stat = stat_of volume directory 0

abbrev found : Found
found = record { number = 77; dest_inode = stale }

finds : find_file_from_path pread volume 0 junk path_ab stale ≡ ok found
unfolding find_file_from_path find_file_below path_loop path_step found_at
finds = refl

ext2_read-Served_example :
    Served
      (min 30 (inode_file_size volume (inode_at stale) - 80))
      (ext2_read 31 pread volume 0 junk stale path_ab 30 80)
unfolding has_directory_mode inode_at inode_file_size
ext2_read-Served_example =
    ext2_read-Served pread volume 0 junk stale path_ab found finds 31 30 80 pread-IsBounded refl
      refl (omega arith) (omega arith) (omega arith) (omega arith)

ext2_readlink-Unlinked_example : Unlinked (ext2_readlink 31 pread volume 0 junk stale path_ab 30 30)
unfolding inode_at inode_file_size
ext2_readlink-Unlinked_example =
    ext2_readlink-Unlinked pread volume 0 junk stale path_ab found finds 31 30 pread-IsBounded
      (omega arith) (omega arith) (omega arith)
