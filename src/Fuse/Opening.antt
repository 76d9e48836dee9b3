-- ===== src/Fuse/Opening.antt =====
-- `ext2_open` and `ext2_getattr` of lab7/ext2fs.c on a file of the root directory.
use cs_261_basics_of_compute.Prelude.{
  ℕ, ◌≡◌, ◌≤◌, true, List, ◌∷◌, length, ◌==◌, if◌then◌else◌, arith,
}
use cs_261_basics_of_compute.Prelude.Int.{pos}
use cs_261_basics_of_compute.Prelude.Run.{ok}
use cs_261_basics_of_compute.Ext2.Defs.{Pread, Volume}
use cs_261_basics_of_compute.Ext2.Path.{Bytes, Junk, inode_at, de_inode_no, slash}
use cs_261_basics_of_compute.Ext2.Lookup.{is_component, find_file_from_path-de_inode_no}
use cs_261_basics_of_compute.Fuse.Defs.{
  no_entry, access_denied, eisdir, has_directory_mode, opens_for_writing, Stat, stat_of, open_found,
  ext2_open, getattr_found, ext2_getattr,
}

module _ (pread : Pread) (v : Volume) (stack : ℕ) (first second : Junk) (inode : Bytes) (c : ℕ)
    (cs : List ℕ) (plain : is_component (c ∷ cs) ≡ true) (short : length (c ∷ cs) ≤ 255) where
  -- Opening a file of the root directory, whose name is at most 255 bytes long, reads nothing from the
  -- disk. What is refused for writing aside, the answer, `EISDIR` without its sign among the possible
  -- ones, and the handle depend on what the memory of the two searches and of the inode held before.
  pub ext2_open_lem :
      (flags fh : ℕ)
      → ext2_open pread v stack first second inode (slash ∷ c ∷ cs) flags fh
        ≡ ok (
            if opens_for_writing flags
            then record { code = access_denied; left = fh }
            else if has_directory_mode inode
            then record { code = eisdir; left = fh }
            else if de_inode_no first.buffer == 0
            then record { code = no_entry; left = fh }
            else record { code = pos 0; left = de_inode_no second.buffer })
  unfolding ext2_open open_found
  ext2_open_lem flags fh =
      rw
        (
          find_file_from_path-de_inode_no pread v stack first c cs inode plain short,
          find_file_from_path-de_inode_no pread v stack second c cs inode plain short,
        )
        (ground arith)

  -- The attributes of a file of the root directory, whose name is at most 255 bytes long, are those of
  -- the uninitialised inode, unless the uninitialised number is 0 and the file is said not to exist.
  pub ext2_getattr_lem :
      (stbuf : Stat)
      → ext2_getattr pread v stack first second inode (slash ∷ c ∷ cs) stbuf
        ≡ ok (
            if de_inode_no first.buffer == 0
            then record { code = no_entry; left = stbuf }
            else record {
              code = pos 0;
              left = stat_of v (inode_at inode) (de_inode_no second.buffer);
            })
  unfolding ext2_getattr getattr_found
  ext2_getattr_lem stbuf =
      rw
        (
          find_file_from_path-de_inode_no pread v stack first c cs inode plain short,
          find_file_from_path-de_inode_no pread v stack second c cs inode plain short,
        )
        (ground arith)
