-- ===== src/Fuse/Listing.antt =====
-- What `ext2_readdir` of lab7/ext2fs.c answers.
use cs_261_basics_of_compute.Prelude.{
  ℕ, zero, suc, ◌/◌, ◌||◌, not, Option, none, some, List, [], ◌∷◌, ◌==◌, ◌^◌, if◌then◌else◌,
  Bool-cases, inl, inr,
}
use cs_261_basics_of_compute.Prelude.Int.{ℤ, pos}
use cs_261_basics_of_compute.Prelude.Run.{Run, ok, undefined, ◌>>=◌, Settles, returns, faults}
use cs_261_basics_of_compute.Ext2.Defs.{Pread, Volume, Inode, inode_file_size}
use cs_261_basics_of_compute.Ext2.Path.{
  Bytes, Junk, Found, inode_at, visit, after_entry, entries_loop, follow_directory_entries,
}
use cs_261_basics_of_compute.Ext2.Lookup.{find_file_from_path-Settles}
use cs_261_basics_of_compute.Fuse.Defs.{no_entry, has_directory_mode, readdir_found, ext2_readdir}

-- The listing is refused, or NULL is called.
pub data Denied : Run ℤ → Type 0 where
  refused : Denied (ok no_entry)
  calls_null : Denied undefined

-- What following the entries with NULL comes to: no entry, or a call of NULL.
data Nothing : Run ℕ → Type 0 where
  no_entries : Nothing (ok 0)
  null_called : Nothing undefined

after_entry-Nothing :
    (next : Bytes → Run ℕ) (curr : Bytes) (o : Option (List ℕ))
    → Nothing (after_entry none none next curr o)
unfolding after_entry visit
after_entry-Nothing next curr none = no_entries
after_entry-Nothing next curr (some []) = no_entries
after_entry-Nothing next curr (some (x ∷ bytes)) = null_called

module _ (pread : Pread) (v : Volume) (stack : ℕ) where
  entries_loop-Nothing :
      (n i : ℕ) (inode : Inode) (curr : Bytes)
      → Nothing (entries_loop n i pread v stack inode none none curr)
  unfolding entries_loop
  entries_loop-Nothing zero i inode curr = no_entries
  entries_loop-Nothing (suc n) i inode curr = after_entry-Nothing _ curr _

  follow_directory_entries-Nothing :
      (inode : Inode) (curr : Bytes)
      → Nothing (follow_directory_entries pread v stack curr inode none none)
  unfolding follow_directory_entries
  follow_directory_entries-Nothing inode curr = elim (Bool-cases (inode.i_mode / 2 ^ 12 == 4)) [
    | inl directory ↦ rw directory (entries_loop-Nothing (inode_file_size v inode) 0 inode curr)
    | inr other ↦ rw other no_entries
  ]

  listing-Denied :
      {r : Run ℕ}
      → Nothing r
      → Denied (r >>= λ number. ok (if number == 0 then no_entry else pos 0))
  listing-Denied no_entries = refused
  listing-Denied null_called = calls_null

  readdir_found-Denied :
      (curr : Bytes) (found : Found) → Denied (readdir_found pread v stack curr found)
  unfolding readdir_found
  readdir_found-Denied curr found =
      elim (Bool-cases ((found.number == 0) || not (has_directory_mode found.dest_inode))) [
        | inl not_directory ↦ rw not_directory refused
        | inr directory ↦
            rw directory
              (listing-Denied (follow_directory_entries-Nothing (inode_at found.dest_inode) curr))
      ]

  bind-Denied :
      {r : Run Found} (curr : Bytes) → Settles r → Denied (r >>= readdir_found pread v stack curr)
  bind-Denied curr (returns {a = found}) = readdir_found-Denied curr found
  bind-Denied curr faults = calls_null

  -- No directory is ever listed: for every path and every disk, `ext2_readdir` returns `-ENOENT`, or
  -- does what C leaves undefined, such as the call of NULL.
  pub ext2_readdir-Denied :
      (junk : Junk) (curr inode : Bytes) (path : List ℕ)
      → Denied (ext2_readdir pread v stack junk curr inode path)
  unfolding ext2_readdir
  ext2_readdir-Denied junk curr inode path =
      bind-Denied curr (find_file_from_path-Settles pread v stack junk path inode)
