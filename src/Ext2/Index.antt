-- ===== src/Ext2/Index.antt =====
-- The index of the blocks of a file in lab7/ext2.c.
use cs_261_basics_of_compute.Prelude.{
  ℕ, zero, suc, ◌+◌, ◌-◌, ◌*◌, ◌/◌, ◌^◌, ◌<◌, ◌≡◌, refl, true, ◌&&◌, some, List, [], ◌∷◌, arith,
  ltb, leb, if◌then◌else◌, Bool-cases, inl, inr, ◌%◌,
}
use cs_261_basics_of_compute.Ext2.Defs.{
  Pread, Volume, Inode, u32, read_block, fill_int, entry_of, read_ind_block_entry,
  get_inode_block_no,
}

-- `size` bytes of the disk from `offset` on.
unfoldable pub bytes_of : (ℕ → ℕ) → (offset size : ℕ) → List ℕ
bytes_of disk offset zero = []
bytes_of disk offset (suc n) = disk offset ∷ bytes_of disk (offset + 1) n

-- Every read finds all its bytes.
abbrev pub Serves : Pread → (ℕ → ℕ) → Type 0
Serves pread disk = (size offset : ℕ) → pread size offset ≡ some (bytes_of disk offset size)

-- The little-endian word at an address.
unfoldable pub word_at : (ℕ → ℕ) → ℕ → ℕ
word_at disk a = disk a + (disk (a + 1) + (disk (a + 2) + disk (a + 3) * 2 ^ 8) * 2 ^ 8) * 2 ^ 8

module _ (pread : Pread) (disk : ℕ → ℕ) (serves : Serves pread disk) (v : Volume) (buffer : ℕ)
    (narrow : buffer < 2 ^ 32) where
  filled : (a : ℕ) → entry_of buffer (some (bytes_of disk a 4)) ≡ word_at disk a
  unfolding entry_of fill_int bytes_of word_at
  filled a =
      let rest : buffer / 256 / 256 / 256 / 256 ≡ 0 = omega arith in
      let e2 : a + 1 + 1 ≡ a + 2 = omega arith in
      let e3 : a + 2 + 1 ≡ a + 3 = omega arith in rw (e2, e3, rest) (omega arith)

  entry-word_at :
      (block index : ℕ)
      → v.block_size * block + 4 * index < 2 ^ 32
      → read_ind_block_entry pread v buffer block index
        ≡ word_at disk (v.block_size * block + 4 * index)
  unfolding read_ind_block_entry read_block
  entry-word_at block index small =
      let low : u32 (4 * index) ≡ 4 * index = omega arith in
      let place : u32 (v.block_size * block + 4 * index) ≡ v.block_size * block + 4 * index =
        omega arith in
      rw (low, place, serves 4 (v.block_size * block + 4 * index))
        (filled (v.block_size * block + 4 * index))

  -- On a disk below 2^32 bytes that serves every read, a block of a file among the direct and the
  -- single indirect ones is the one that the inode or its indirect block names.
  pub get_inode_block_no-word_at :
      (inode : Inode) (block_idx : ℕ)
      → block_idx < 12 + v.block_size / 4
      → v.block_size * inode.i_block_1ind + v.block_size < 2 ^ 32
      → get_inode_block_no pread v buffer inode block_idx ≡ (
          if ltb block_idx 12
          then inode.i_block block_idx
          else word_at disk (v.block_size * inode.i_block_1ind + 4 * (block_idx - 12)))
  unfolding get_inode_block_no
  get_inode_block_no-word_at inode block_idx inside small = elim (Bool-cases (ltb block_idx 12)) [
    | inl direct ↦ rw direct refl
    | inr far ↦
        let test : (leb 12 block_idx && ltb block_idx (12 + v.block_size / 4)) ≡ true =
          ground arith in
        let low : u32 (block_idx - 12) ≡ block_idx - 12 = ground arith in
        rw (far, test, low) (entry-word_at inode.i_block_1ind (block_idx - 12) (ground arith))
  ]

-- The block that block number `k` of those behind a double indirect block is by the format: both the
-- outer and the inner block hold as many words as fit.
abbrev pub double_word : (ℕ → ℕ) → Volume → Inode → (k : ℕ) → ℕ
double_word disk v inode k =
    let words = v.block_size / 4 in
    let second = word_at disk (v.block_size * inode.i_block_2ind + 4 * (k / words)) in
    word_at disk (v.block_size * second + 4 * (k % words))
