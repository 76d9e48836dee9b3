-- ===== src/Ext2/Directory.antt =====
-- Searching a directory of lab7/ext2.c whose blocks are direct ones of a disk that serves every read.
use cs_261_basics_of_compute.Prelude.{
  ℕ, zero, suc, ◌+◌, ◌*◌, ◌/◌, ◌%◌, ◌^◌, ◌≤◌, ◌<◌, ◌≡◌, ◌≢◌, refl, ap, Bool, true, false, ◌&&◌,
  some, ltb, ◌==◌, if◌then◌else◌, Bool-cases, inl, inr, arith, ◌∙◌,
}
use native.Mathlib.Nat.{div-lt_iff_lt-mul}
use cs_261_basics_of_compute.Prelude.Run.{Run, ok}
use cs_261_basics_of_compute.Ext2.Defs.{Pread, Volume, Inode, read_file_block, inode_file_size}
use cs_261_basics_of_compute.Ext2.Index.{Serves, bytes_of}
use cs_261_basics_of_compute.Ext2.Contiguous.{read_file_block-bytes_of}
use cs_261_basics_of_compute.Ext2.Path.{
  Bytes, fill, sizeof_dir_entry, de_name, de_inode_no, Visit, visit, after_visit, after_entry,
  entries_loop, follow_directory_entries, strings_equal, compare_file_name, find_file_in_directory,
}

-- A string of `n` bytes before its NUL.
abbrev pub IsString : Bytes → ℕ → Type 0
IsString name n = (name n ≡ 0) × ((j : ℕ) → j < n → name j ≢ 0)

-- Whether `n` bytes from byte `k` on are the same.
unfoldable pub agree : (n k : ℕ) → (a b : Bytes) → Bool
agree zero k a b = true
agree (suc n) k a b = (a k == b k) && agree n (k + 1) a b

-- Whether one of `n` numbers from `i` on passes a test.
unfoldable pub any_from : (n i : ℕ) → (ℕ → Bool) → Bool
any_from zero i f = false
any_from (suc n) i f = if f i then true else any_from n (i + 1) f

strings_equal-agree :
    (n m k : ℕ) (a b : Bytes)
    → n < m
    → b (k + n) ≡ 0
    → ((j : ℕ) → j < n → b (k + j) ≢ 0)
    → strings_equal m k a b ≡ ok (agree (suc n) k a b)
unfolding strings_equal agree
strings_equal-agree n zero k a b lt nul before = absurd (omega arith)
strings_equal-agree zero (suc m) k a b lt nul before =
    let here : b k ≡ 0 = ap b (omega arith) ∙ nul in
    elim (Bool-cases (a k == b k)) [
      | inl same ↦ let z : (a k == 0) ≡ true = ground arith in rw (same, z) refl
      | inr other ↦ rw other refl
    ]
strings_equal-agree (suc n) (suc m) k a b lt nul before =
    let some_byte : b k ≢ 0 = λ e. before 0 (omega arith) (ap b (omega arith) ∙ e) in
    elim (Bool-cases (a k == b k)) [
      | inl same ↦
          let z : (a k == 0) ≡ false = ground arith in
          rw (same, z)
            (strings_equal-agree n m (k + 1) a b (omega arith) (ap b (omega arith) ∙ nul)
              (λ j l e. before (j + 1) (omega arith) (ap b (omega arith) ∙ e)))
      | inr other ↦ rw other refl
    ]

agree_cong :
    (n k : ℕ) (a a' b : Bytes)
    → ((j : ℕ) → j < n → a (k + j) ≡ a' (k + j))
    → agree n k a b ≡ agree n k a' b
unfolding agree
agree_cong zero k a a' b same = refl
agree_cong (suc n) k a a' b same =
    let head : a k ≡ a' k = ap a (omega arith) ∙ same 0 (omega arith) ∙ ap a' (omega arith) in
    rw
      (
        head,
        agree_cong n (k + 1) a a' b
            (λ j l. ap a (omega arith) ∙ same (j + 1) (omega arith) ∙ ap a' (omega arith)),
      )
      refl

pub fill-bytes_of :
    (disk : ℕ → ℕ) (n a k : ℕ) (m : Bytes) → k < n → fill (bytes_of disk a n) m k ≡ disk (a + k)
unfolding fill bytes_of
fill-bytes_of disk zero a k m lt = absurd (omega arith)
fill-bytes_of disk (suc n) a zero m lt = ap disk (omega arith)
fill-bytes_of disk (suc n) a (suc k) m lt =
    fill-bytes_of disk n (a + 1) k (λ j. m (suc j)) (omega arith) ∙ ap disk (omega arith)

-- The bytes of the file from byte `i` on, when its blocks are direct.
unfoldable pub window : (ℕ → ℕ) → Volume → Inode → (i : ℕ) → Bytes
window disk v inode i k =
    disk (v.block_size * inode.i_block (i / v.block_size) + i % v.block_size + k)

module _ (pread : Pread) (disk : ℕ → ℕ) (serves : Serves pread disk) (v : Volume) (stack : ℕ)
    (inode : Inode) (small : inode_file_size v inode ≤ 12 * v.block_size)
    (low : (b : ℕ) → b < 12 → v.block_size * inode.i_block b + v.block_size ≤ 2 ^ 32) where
  -- An entry read over `curr` has the bytes of the file in it.
  window-fill :
      (i k : ℕ) (curr : Bytes)
      → k < sizeof_dir_entry
      → fill
          (bytes_of disk
            (v.block_size * inode.i_block (i / v.block_size) + i % v.block_size)
            sizeof_dir_entry)
          curr
          k
        ≡ window disk v inode i k
  unfolding window
  window-fill i k curr lt = fill-bytes_of disk sizeof_dir_entry _ k curr lt

  module _ (name : Bytes) (n : ℕ) (short : n < 256) (is_string : IsString name n)
      (buffer : Bytes) where
    -- The visit of `find_file_in_directory`.
    abbrev by_name : Visit
    by_name = some (λ entry_name inode_no. compare_file_name entry_name inode_no name)

    -- Whether the bytes from byte `i` on are an entry of that name.
    abbrev pub has_name : ℕ → Bool
    has_name i = agree (suc n) 0 (de_name (window disk v inode i)) name

    round-agree :
        (i : ℕ) (curr : Bytes) (next : Bytes → Run ℕ)
        → i < inode_file_size v inode
        → after_entry
            (some buffer)
            by_name
            next
            curr
            (read_file_block pread v stack inode i sizeof_dir_entry)
          ≡ after_visit
              (some buffer)
              (next (
                fill
                  (bytes_of disk
                    (v.block_size * inode.i_block (i / v.block_size) + i % v.block_size)
                    sizeof_dir_entry)
                  curr))
              (has_name i)
    unfolding after_entry visit compare_file_name bytes_of
    round-agree i curr next inside =
        let a = v.block_size * inode.i_block (i / v.block_size) + i % v.block_size in
        let entry = fill (bytes_of disk a sizeof_dir_entry) curr in
        let positive : 0 < v.block_size = omega arith in
        let direct : i / v.block_size < 12 = (div-lt_iff_lt-mul positive).1 (omega arith) in
        rw
          (
            read_file_block-bytes_of pread disk serves v stack inode i (omega arith)
                (low (i / v.block_size) direct) sizeof_dir_entry (omega arith),
            strings_equal-agree n 256 0 (de_name entry) name short
                (ap name (omega arith) ∙ is_string.0)
                (λ j l e. is_string.1 j l (ap name (omega arith) ∙ e)),
            agree_cong (suc n) 0 (de_name entry) (de_name (window disk v inode i)) name (λ j l.
                ap entry (omega arith)
                ∙ window-fill i (8 + j) curr (omega arith)
                ∙ ap (window disk v inode i) (omega arith)),
          )
          refl

    entries_loop-any_from :
        (k i : ℕ) (curr : Bytes)
        → i + k ≡ inode_file_size v inode
        → i + k < 2 ^ 31
        → entries_loop k i pread v stack inode (some buffer) by_name curr
          ≡ ok (if any_from k i has_name then de_inode_no buffer else 0)
    unfolding entries_loop any_from after_visit
    entries_loop-any_from zero i curr all fits = refl
    entries_loop-any_from (suc k) i curr all fits =
        let counts : ltb (i + 1) (2 ^ 31) ≡ true = ground arith in
        elim (Bool-cases (has_name i)) [
          | inl hit ↦ rw (round-agree i curr _ (omega arith), hit) refl
          | inr miss ↦
              rw (round-agree i curr _ (omega arith), miss, counts)
                (entries_loop-any_from k (i + 1) _ (omega arith) (omega arith))
        ]

    -- On a disk that serves every read, a search for a name of at most 255 bytes, in a directory
    -- of fewer than 2^31 bytes whose blocks are direct ones below 2^32, looks at every byte of it
    -- as the start of an entry. It returns the number that `buffer` held before the call if one of
    -- them has the name, and 0 otherwise.
    pub find_file_in_directory-any_from :
        (curr : Bytes)
        → inode.i_mode / 2 ^ 12 ≡ 4
        → inode_file_size v inode < 2 ^ 31
        → find_file_in_directory pread v stack curr inode name buffer
          ≡ ok (if any_from (inode_file_size v inode) 0 has_name then de_inode_no buffer else 0)
    unfolding find_file_in_directory follow_directory_entries
    find_file_in_directory-any_from curr directory fits =
        let test : (inode.i_mode / 2 ^ 12 == 4) ≡ true = ground arith in
        rw test (entries_loop-any_from (inode_file_size v inode) 0 curr (omega arith) (omega arith))
