-- ===== src/Ext2/Lookup.antt =====
-- `find_file_from_path` of lab7/ext2.c: it always comes to an end, and what it answers for a path with
-- one component.
use cs_261_basics_of_compute.Prelude.{
  ℕ, zero, suc, ◌+◌, ◌≤◌, ◌≡◌, refl, Bool, true, false, ◌||◌, not, Option, none, some, List, [],
  ◌∷◌, length, ltb, ◌==◌, if◌then◌else◌, arith,
}
use cs_261_basics_of_compute.Prelude.Run.{
  Run, ok, ◌>>=◌, Settles, returns, faults, bind-Settles, if-Settles,
}
use cs_261_basics_of_compute.Ext2.Defs.{Pread, Volume, Inode, inode_file_size}
use cs_261_basics_of_compute.Ext2.Path.{
  Bytes, de_inode_no, Visit, visit, after_visit, after_entry, entries_loop,
  follow_directory_entries, strings_equal, compare_file_name, find_file_in_directory, Junk, Walk,
  walking, missing, slash, path_step, path_loop, found_at, find_file_below, find_file_from_path,
  inode_at,
}

strings_equal-Settles : (n k : ℕ) (a b : Bytes) → Settles (strings_equal n k a b)
unfolding strings_equal
strings_equal-Settles zero k a b = faults
strings_equal-Settles (suc n) k a b =
    if-Settles (not (a k == b k)) (returns {a = false})
      (if-Settles (a k == 0) (returns {a = true}) (strings_equal-Settles n (k + 1) a b))

-- A visit that settles on every entry; a call of NULL does too.
pub data Calm : Visit → Type 0 where
  null : Calm none
  call :
      {f : Bytes → ℕ → Run Bool}
      → ((name : Bytes) (inode_no : ℕ) → Settles (f name inode_no))
      → Calm (some f)

visit-Settles : {f : Visit} → Calm f → (entry : Bytes) → Settles (visit f entry)
unfolding visit
visit-Settles null entry = faults
visit-Settles (call h) entry = h _ _

after_visit-Settles :
    (buffer : Option Bytes) (rest : Run ℕ) (found : Bool)
    → Settles rest
    → Settles (after_visit buffer rest found)
unfolding after_visit
after_visit-Settles none rest true h = faults
after_visit-Settles (some b) rest true h = returns
after_visit-Settles none rest false h = h
after_visit-Settles (some b) rest false h = h

after_entry-Settles :
    (buffer : Option Bytes) {f : Visit} (next : Bytes → Run ℕ) (curr : Bytes) (o : Option (List ℕ))
    → Calm f
    → ((entry : Bytes) → Settles (next entry))
    → Settles (after_entry buffer f next curr o)
unfolding after_entry
after_entry-Settles buffer next curr none calm h = returns
after_entry-Settles buffer next curr (some []) calm h = returns
after_entry-Settles buffer next curr (some (x ∷ bytes)) calm h =
    bind-Settles (visit-Settles calm _) (λ found. after_visit-Settles buffer _ found (h _))

-- A component of a path: no byte of it is a slash, or the NUL that ends the path.
unfoldable pub is_component : List ℕ → Bool
is_component [] = true
is_component (c ∷ cs) = if (c == slash) || (c == 0) then false else is_component cs

module _ (pread : Pread) (v : Volume) (stack : ℕ) where
  entries_loop-Settles :
      (n i : ℕ) (inode : Inode) (buffer : Option Bytes) {f : Visit} (curr : Bytes)
      → Calm f
      → Settles (entries_loop n i pread v stack inode buffer f curr)
  unfolding entries_loop
  entries_loop-Settles zero i inode buffer curr calm = returns
  entries_loop-Settles (suc n) i inode buffer curr calm =
      after_entry-Settles buffer _ curr _ calm
        (λ entry. if-Settles _ (entries_loop-Settles n (i + 1) inode buffer entry calm) faults)

  pub follow_directory_entries-Settles :
      (curr : Bytes) (inode : Inode) (buffer : Option Bytes) {f : Visit}
      → Calm f
      → Settles (follow_directory_entries pread v stack curr inode buffer f)
  unfolding follow_directory_entries
  follow_directory_entries-Settles curr inode buffer calm =
      if-Settles _ returns (entries_loop-Settles (inode_file_size v inode) 0 inode buffer curr calm)

  find_file_in_directory-Settles :
      (curr : Bytes) (inode : Inode) (name buffer : Bytes)
      → Settles (find_file_in_directory pread v stack curr inode name buffer)
  unfolding find_file_in_directory compare_file_name
  find_file_in_directory-Settles curr inode name buffer =
      follow_directory_entries-Settles curr inode (some buffer)
        (call (λ entry_name inode_no. strings_equal-Settles 256 0 entry_name name))

  module _ (junk : Junk) where
    path_step-Settles : (c : ℕ) (w : Walk) → Settles (path_step pread v stack junk c w)
    unfolding path_step
    path_step-Settles c (missing dest) = returns
    path_step-Settles c (walking i name dest) =
        if-Settles _
          (bind-Settles (find_file_in_directory-Settles junk.curr (inode_at dest) name junk.buffer)
            (λ n. returns))
          (if-Settles _ returns faults)

    path_loop-Settles : (path : List ℕ) (w : Walk) → Settles (path_loop pread v stack junk path w)
    unfolding path_loop
    path_loop-Settles [] w = returns
    path_loop-Settles (c ∷ path) w = bind-Settles (path_step-Settles c w) (path_loop-Settles path)

    -- Whatever the path and the disk are, the search returns or does what C leaves undefined.
    pub find_file_from_path-Settles :
        (path : List ℕ) (dest : Bytes) → Settles (find_file_from_path pread v stack junk path dest)
    unfolding find_file_from_path find_file_below
    find_file_from_path-Settles [] dest = returns
    find_file_from_path-Settles (c ∷ []) dest = if-Settles _ returns returns
    find_file_from_path-Settles (c ∷ d ∷ path) dest =
        if-Settles _ returns (bind-Settles (path_loop-Settles (d ∷ path) _) (λ w. returns))

    path_loop-found_at :
        (cs : List ℕ) (i : ℕ) (name dest : Bytes)
        → is_component cs ≡ true
        → i + length cs ≤ 255
        → (path_loop pread v stack junk cs (walking i name dest) >>= λ w.
            ok (found_at junk.buffer w))
          ≡ ok (record { number = de_inode_no junk.buffer; dest_inode = dest })
    unfolding path_loop path_step is_component found_at
    path_loop-found_at [] i name dest plain short = refl
    path_loop-found_at (c ∷ cs) i name dest plain short =
        let plain' : is_component cs ≡ true = ground arith in
        let letter : (c == slash) ≡ false = ground arith in
        let room : ltb i 255 ≡ true = ground arith in
        rw (letter, room) (path_loop-found_at cs (i + 1) _ dest plain' (omega arith))

    -- For a file in the root directory whose name is at most 255 bytes long, the search reads neither
    -- the disk nor an inode: it returns the number that the memory of its buffer held before.
    pub find_file_from_path-de_inode_no :
        (c : ℕ) (cs : List ℕ) (dest : Bytes)
        → is_component (c ∷ cs) ≡ true
        → length (c ∷ cs) ≤ 255
        → find_file_from_path pread v stack junk (slash ∷ c ∷ cs) dest
          ≡ ok (record { number = de_inode_no junk.buffer; dest_inode = dest })
    unfolding find_file_from_path find_file_below
    find_file_from_path-de_inode_no c cs dest plain short =
        path_loop-found_at (c ∷ cs) 0 junk.name dest plain (omega arith)
