-- ===== src/Fuse/Reading.antt =====
-- `ext2_read` and `ext2_readlink` of lab7/ext2fs.c on a file that the search has found.
use Prim.Native.Nat.{min}
use cs_261_basics_of_compute.Prelude.{
  ℕ, ◌-◌, ◌^◌, ◌%◌, ◌≡◌, ◌≤◌, ◌<◌, true, false, List, [], length, ltb, leb, ◌==◌, Bool-cases, inl,
  inr, arith,
}
use cs_261_basics_of_compute.Prelude.Int.{ℤ, pos}
use cs_261_basics_of_compute.Prelude.Run.{Run, ok, undefined}
use cs_261_basics_of_compute.Ext2.Defs.{Pread, Volume, Outcome, inode_file_size}
use cs_261_basics_of_compute.Ext2.Content.{Reads, error, short, full, IsBounded, content-Reads}
use cs_261_basics_of_compute.Ext2.Path.{Bytes, Junk, Found, inode_at, find_file_from_path}
use cs_261_basics_of_compute.Fuse.Defs.{
  no_entry, io_error, invalid, has_directory_mode, Reply, read_reply, ext2_read, end_target,
  readlink_found, ext2_readlink,
}

-- An input or output error, a length of 0, or all that the limit allows.
pub data Served (limit : ℕ) : Run (Reply (List ℕ)) → Type 0 where
  broken : Served limit (ok (record { code = io_error; left = [] }))
  cut_short : {content : List ℕ} → Served limit (ok (record { code = pos 0; left = content }))
  served :
      {content : List ℕ}
      → length content ≡ limit
      → Served limit (ok (record { code = pos limit; left = content }))

read_reply-Served :
    (limit : ℕ) (found : Found) {outcome : Outcome}
    → has_directory_mode found.dest_inode ≡ false
    → (found.number == 0) ≡ false
    → limit < 2 ^ 31
    → Reads limit outcome
    → Served limit (read_reply found outcome)
unfolding read_reply
read_reply-Served limit found file known small error = rw (file, known) broken
read_reply-Served limit found file known small short = rw (file, known) cut_short
read_reply-Served limit found file known small (full all) =
    let int : limit % 2 ^ 32 ≡ limit = omega arith in
    let positive : ltb limit (2 ^ 31) ≡ true = ground arith in
    rw (file, known, int, positive) (served all)

module _ (pread : Pread) (v : Volume) (stack : ℕ) (junk : Junk) (inode : Bytes) (path : List ℕ)
    (found : Found) (finds : find_file_from_path pread v stack junk path inode ≡ ok found) where
  -- Once the search has found a file of fewer than 2^63 bytes that is not a directory, and as long
  -- as `pread` gives no more bytes than asked for, `ext2_read` from an offset inside the file, of
  -- fewer than 2^31 bytes, with more fuel than bytes asked for, returns: `-EIO`, 0, or the number
  -- of bytes up to the size asked for or the end of the file, with that many bytes.
  pub ext2_read-Served :
      (fuel size offset : ℕ)
      → IsBounded pread
      → has_directory_mode found.dest_inode ≡ false
      → (found.number == 0) ≡ false
      → offset ≤ inode_file_size v (inode_at found.dest_inode)
      → inode_file_size v (inode_at found.dest_inode) < 2 ^ 63
      → size < 2 ^ 31
      → size < fuel
      → Served
          (min size (inode_file_size v (inode_at found.dest_inode) - offset))
          (ext2_read fuel pread v stack junk inode path size offset)
  unfolding ext2_read
  ext2_read-Served fuel size offset bounded file known inside fits small enough =
      let reads =
        content-Reads pread bounded v stack (inode_at found.dest_inode) offset size fuel inside fits
          small enough in
      rw finds (read_reply-Served _ found file known (omega arith) reads)

-- The errors of reading a link, and the write behind the end of its array.
pub data Unlinked : Run ℤ → Type 0 where
  not_found : Unlinked (ok no_entry)
  not_link : Unlinked (ok invalid)
  unreadable : Unlinked (ok io_error)
  overruns : Unlinked undefined

end_target-Unlinked :
    (size : ℕ) {limit : ℕ} {outcome : Outcome}
    → Reads limit outcome
    → Unlinked (end_target size size outcome)
unfolding end_target
end_target-Unlinked size error = unreadable
end_target-Unlinked size short = let over : ltb size size ≡ false = ground arith in rw over overruns
end_target-Unlinked size (full all) =
    let over : ltb size size ≡ false = ground arith in rw over overruns

module _ (pread : Pread) (v : Volume) (stack : ℕ) (junk : Junk) (inode : Bytes) (path : List ℕ)
    (found : Found) (finds : find_file_from_path pread v stack junk path inode ≡ ok found) where
  -- In an array of the `size` bytes that FUSE says it has, fewer than 2^31 and fewer than the
  -- fuel, `ext2_readlink` on a file of fewer than 2^63 bytes that the search has found gives no
  -- target, as long as `pread` gives no more bytes than asked for: it returns an error, or writes
  -- the NUL behind the end of the array.
  pub ext2_readlink-Unlinked :
      (fuel size : ℕ)
      → IsBounded pread
      → inode_file_size v (inode_at found.dest_inode) < 2 ^ 63
      → size < 2 ^ 31
      → size < fuel
      → Unlinked (ext2_readlink fuel pread v stack junk inode path size size)
  unfolding ext2_readlink readlink_found
  ext2_readlink-Unlinked fuel size bounded fits small enough =
      let reads =
        content-Reads pread bounded v stack (inode_at found.dest_inode) 0 size fuel (omega arith)
          fits small enough in
      let target = end_target-Unlinked size reads in
      elim (Bool-cases (found.number == 0)) [
        | inl lost ↦ rw (finds, lost) not_found
        | inr known ↦ elim (Bool-cases (leb (inode_at found.dest_inode).i_size 60)) [
          | inl small_size ↦ rw (finds, known, small_size) not_link
          | inr long ↦ rw (finds, known, long) target
        ]
      ]
