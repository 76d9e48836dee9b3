-- ===== src/Ext2/Contiguous.antt =====
-- What `read_file_content` of lab7/ext2.c returns on a disk that serves every read: `read_file_block`
-- does not stop at the end of its block.
use native.Mathlib.Nat.{div-lt_iff_lt-mul, mod-lt}
use cs_261_basics_of_compute.Prelude.{
  ℕ, zero, suc, ◌+◌, ◌*◌, ◌/◌, ◌%◌, ◌^◌, ◌≤◌, ◌<◌, ◌≡◌, true, some, List, [], ◌∷◌, arith, ltb,
}
use cs_261_basics_of_compute.Ext2.Defs.{
  Pread, Volume, Inode, u32, read_block, get_inode_block_no, read_file_block,
}
use cs_261_basics_of_compute.Ext2.Index.{Serves, bytes_of}

-- Where a byte of a direct block of the file lies.
abbrev pub place_of : Volume → Inode → ℕ → ℕ
place_of v inode i = v.block_size * inode.i_block (i / v.block_size) + i % v.block_size

-- `n` bytes of the file from byte `i` on.
unfoldable pub file_bytes : (ℕ → ℕ) → Volume → Inode → (i n : ℕ) → List ℕ
file_bytes disk v inode i zero = []
file_bytes disk v inode i (suc n) = disk (place_of v inode i) ∷ file_bytes disk v inode (i + 1) n

module _ (pread : Pread) (disk : ℕ → ℕ) (serves : Serves pread disk) (v : Volume) (buffer : ℕ)
    (inode : Inode) (offset : ℕ) (direct : offset < 12 * v.block_size)
    (low : v.block_size * inode.i_block (offset / v.block_size) + v.block_size ≤ 2 ^ 32) where
  positive : 0 < v.block_size
  positive = omega (arith, direct)

  first_block : ltb (offset / v.block_size) 12 ≡ true
  first_block =
      let l : offset / v.block_size < 12 = (div-lt_iff_lt-mul positive).1 (omega (arith, direct)) in
      ground (arith, l)

  pub read_file_block-bytes_of :
      (limit : ℕ)
      → limit < 2 ^ 32
      → read_file_block pread v buffer inode offset limit
        ≡ some (bytes_of disk (place_of v inode offset) limit)
  unfolding read_file_block read_block get_inode_block_no
  read_file_block-bytes_of limit small =
      let rest = mod-lt offset positive in
      let e1 : u32 (offset % v.block_size) ≡ offset % v.block_size = omega (arith, low, rest) in
      let e2 : u32 (place_of v inode offset) ≡ place_of v inode offset = omega (arith, low, rest) in
      let e3 : u32 limit ≡ limit = omega arith in
      rw (first_block, e1, e2, e3) (serves limit (place_of v inode offset))
