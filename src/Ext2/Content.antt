-- ===== src/Ext2/Content.antt =====
-- `read_file_content` of lab7/ext2.c returns.
use Prim.Native.Nat.{min}
use cs_261_basics_of_compute.Prelude.{
  ℕ, zero, suc, ◌+◌, ◌-◌, ◌^◌, ◌≤◌, ◌<◌, ◌≡◌, refl, Option, none, some, List, [], ◌∷◌, ◌++◌, arith,
  ltb, if◌then◌else◌, Bool-cases, inl, inr, length, length-append,
}
use cs_261_basics_of_compute.Ext2.Defs.{
  Pread, Volume, Inode, u32, u64, read_block, read_file_block, inode_file_size, Outcome, failed,
  returned, after_read, content_loop, read_file_content,
}

-- What a read of `limit` bytes may end with: an error, 0 when no byte arrives in some round, or all of
-- the bytes.
pub data Reads (limit : ℕ) : Outcome → Type 0 where
  error : Reads limit failed
  short : {content : List ℕ} → Reads limit (returned 0 content)
  full : {content : List ℕ} → length content ≡ limit → Reads limit (returned limit content)

-- `pread` returns no more bytes than it was asked for.
abbrev pub IsBounded : Pread → Type 0
IsBounded pread =
    (size offset : ℕ) (bytes : List ℕ) → pread size offset ≡ some bytes → length bytes ≤ size

after_read-Reads :
    (limit so_far : ℕ) (content : List ℕ) (next : ℕ → List ℕ → Outcome) (reply : Option (List ℕ))
    → limit < 2 ^ 31
    → so_far < limit
    → length content ≡ so_far
    → ((bytes : List ℕ) → reply ≡ some bytes → length bytes ≤ limit - so_far)
    → ((s : ℕ) (c : List ℕ) → so_far < s → s ≤ limit → length c ≡ s → Reads limit (next s c))
    → Reads limit (after_read so_far content next reply)
unfolding after_read
after_read-Reads limit so_far content next none small lt len fits go_on = error
after_read-Reads limit so_far content next (some []) small lt len fits go_on = short
after_read-Reads limit so_far content next (some (x ∷ bytes)) small lt len fits go_on =
    let all = fits (x ∷ bytes) refl in
    let exact : u32 (so_far + length (x ∷ bytes)) ≡ so_far + length (x ∷ bytes) = omega arith in
    rw exact (
      go_on (so_far + length (x ∷ bytes)) (content ++ x ∷ bytes) (omega arith) (omega arith)
        (omega (arith, length-append content (x ∷ bytes))))

module _ (pread : Pread) (bounded : IsBounded pread) (v : Volume) (buffer : ℕ) (inode : Inode)
    (offset : ℕ) where
  content_loop-Reads :
      (limit : ℕ) (small : limit < 2 ^ 31) (fuel so_far : ℕ) (content : List ℕ)
      → so_far ≤ limit
      → length content ≡ so_far
      → limit < so_far + fuel
      → Reads limit (content_loop fuel pread v buffer inode offset limit so_far content)
  unfolding content_loop read_file_block read_block
  content_loop-Reads limit small zero so_far content le len enough = absurd (omega arith)
  content_loop-Reads limit small (suc k) so_far content le len enough =
      elim (Bool-cases (ltb so_far limit)) [
        | inl more ↦
            let lt : so_far < limit = ground arith in
            let asked : u32 (limit - so_far) ≡ limit - so_far = omega arith in
            rw more (
              after_read-Reads limit so_far content _ _ small lt len
                (λ bytes e. omega (arith, bounded _ _ bytes e, asked))
                (λ s c p q l. content_loop-Reads limit small k s c q l (omega arith)))
        | inr done ↦
            let same : so_far ≡ limit = ground arith in rw (done, same) (full (omega arith))
      ]

  pub content-Reads :
      (max_size fuel : ℕ)
      → offset ≤ inode_file_size v inode
      → inode_file_size v inode < 2 ^ 63
      → max_size < 2 ^ 31
      → max_size < fuel
      → Reads
          (min max_size (inode_file_size v inode - offset))
          (read_file_content fuel pread v buffer inode offset max_size)
  unfolding read_file_content
  content-Reads max_size fuel inside size small enough =
      let limit = min max_size (inode_file_size v inode - offset) in
      let cut : (if ltb (inode_file_size v inode) (u64 (offset + max_size))
            then u64 (inode_file_size v inode + 2 ^ 64 - offset)
            else max_size)
          ≡ limit =
        ground arith in
      rw cut (content_loop-Reads limit (omega arith) fuel 0 [] (omega arith) refl (omega arith))
