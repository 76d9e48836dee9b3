-- ===== src/Ext2/Path.antt =====
-- Directories and paths in lab7/ext2.c. What `malloc` and an array without an initial value hold is a
-- parameter, and `malloc` does not fail. A path is the list of its bytes before the NUL, a name is memory
-- that contains it. `s_inode_size` is at most the 128 bytes of `inode_t`.
use cs_261_basics_of_compute.Prelude.{
  ℕ, zero, suc, ◌+◌, ◌*◌, ◌/◌, ◌^◌, Bool, true, false, ◌||◌, not, Option, none, some, List, [], ◌∷◌,
  ltb, leb, ◌==◌, if◌then◌else◌,
}
use cs_261_basics_of_compute.Prelude.Run.{Run, ok, undefined, ◌>>=◌}
use cs_261_basics_of_compute.Ext2.Defs.{
  Pread, Volume, Inode, read_file_block, read_inode, inode_file_size,
}

-- Bytes of memory, by their offset.
abbrev pub Bytes : Type 0
Bytes = ℕ → ℕ

-- Memory once some bytes have been read into it.
unfoldable pub fill : List ℕ → Bytes → Bytes
fill [] m k = m k
fill (x ∷ xs) m zero = x
fill (x ∷ xs) m (suc k) = fill xs (λ j. m (suc j)) k

unfoldable pub receive : Option (List ℕ) → Bytes → Bytes
receive none m = m
receive (some bytes) m = fill bytes m

abbrev pub le16 : Bytes → ℕ → ℕ
le16 m a = m a + m (a + 1) * 2 ^ 8

abbrev pub le32 : Bytes → ℕ → ℕ
le32 m a = le16 m a + le16 m (a + 2) * 2 ^ 16

-- `inode_t` as it lies in memory.
unfoldable pub inode_at : Bytes → Inode
inode_at m = record {
  i_mode = le16 m 0;
  i_uid = le16 m 2;
  i_size = le32 m 4;
  i_atime = le32 m 8;
  i_ctime = le32 m 12;
  i_mtime = le32 m 16;
  i_gid = le16 m 24;
  i_links_count = le16 m 26;
  i_blocks = le32 m 28;
  i_block = λ k. le32 m (40 + 4 * k);
  i_block_1ind = le32 m 88;
  i_block_2ind = le32 m 92;
  i_block_3ind = le32 m 96;
  i_dir_acl = le32 m 108;
}

-- `sizeof(struct dir_entry)`, and where its name begins.
abbrev pub sizeof_dir_entry : ℕ
sizeof_dir_entry = 264

abbrev pub de_name : Bytes → Bytes
de_name m k = m (8 + k)

abbrev pub de_inode_no : Bytes → ℕ
de_inode_no m = le32 m 0

-- The function that is called for an entry; `none` is the pointer NULL. The result says whether what it
-- returns is positive.
abbrev pub Visit : Type 0
Visit = Option (Bytes → ℕ → Run Bool)

unfoldable pub visit : Visit → (entry : Bytes) → Run Bool
visit none entry = undefined
visit (some f) entry = f (de_name entry) (de_inode_no entry)

-- `return buffer->de_inode_no` once `f` has said so.
unfoldable pub after_visit : (buffer : Option Bytes) → (rest : Run ℕ) → (found : Bool) → Run ℕ
after_visit none rest true = undefined
after_visit (some buffer) rest true = ok (de_inode_no buffer)
after_visit buffer rest false = rest

-- A round, once the entry has been read into `curr`.
unfoldable pub after_entry :
    (buffer : Option Bytes)
    → Visit
    → (next : Bytes → Run ℕ) → (curr : Bytes) → Option (List ℕ)
    → Run ℕ
after_entry buffer f next curr none = ok 0
after_entry buffer f next curr (some []) = ok 0
after_entry buffer f next curr (some (x ∷ bytes)) = do
  let entry = fill (x ∷ bytes) curr
  found ← visit f entry
  after_visit buffer (next entry) found

-- The `n` rounds that are left when the counter is `i`, which is an `int`.
unfoldable pub entries_loop :
    (n i : ℕ)
    → Pread
    → Volume
    → (stack : ℕ) → Inode
    → (buffer : Option Bytes) → Visit
    → (curr : Bytes) → Run ℕ
entries_loop zero i pread v stack inode buffer f curr = ok 0
entries_loop (suc n) i pread v stack inode buffer f curr =
    after_entry buffer f
      (λ entry.
        if ltb (i + 1) (2 ^ 31)
        then entries_loop n (i + 1) pread v stack inode buffer f entry
        else undefined)
      curr (read_file_block pread v stack inode i sizeof_dir_entry)

unfoldable pub follow_directory_entries :
    Pread → Volume → (stack : ℕ) → (curr : Bytes) → Inode → (buffer : Option Bytes) → Visit → Run ℕ
follow_directory_entries pread v stack curr inode buffer f =
    if not (inode.i_mode / 2 ^ 12 == 4)
    then ok 0
    else entries_loop (inode_file_size v inode) 0 pread v stack inode buffer f curr

-- `strcmp(a, b) == 0` from byte `k` on, on arrays with `n` more bytes.
unfoldable pub strings_equal : (n k : ℕ) → (a b : Bytes) → Run Bool
strings_equal zero k a b = undefined
strings_equal (suc n) k a b =
    if not (a k == b k) then ok false else if a k == 0 then ok true else strings_equal n (k + 1) a b

unfoldable pub compare_file_name : (name : Bytes) (inode_no : ℕ) (context : Bytes) → Run Bool
compare_file_name name inode_no context = strings_equal 256 0 name context

unfoldable pub find_file_in_directory :
    Pread → Volume → (stack : ℕ) → (curr : Bytes) → Inode → (name buffer : Bytes) → Run ℕ
find_file_in_directory pread v stack curr inode name buffer =
    follow_directory_entries pread v stack curr inode (some buffer)
      (some (λ entry_name inode_no. compare_file_name entry_name inode_no name))

-- What the memory that a call of `find_file_from_path` takes holds at first.
pub record Junk : Type 0 where
  pub inode : Bytes
  pub buffer : Bytes
  pub name : Bytes
  pub curr : Bytes

-- What the call returns, and the memory of `dest_inode` after it.
pub record Found : Type 0 where
  pub number : ℕ
  pub dest_inode : Bytes

-- The loop over the path: it has come to place `i` of `name`, or it has returned 0.
pub data Walk : Type 0 where
  walking : (i : ℕ) (name dest_inode : Bytes) → Walk
  missing : (dest_inode : Bytes) → Walk

abbrev pub slash : ℕ
slash = 47

unfoldable pub write : Bytes → (k x : ℕ) → Bytes
write m k x j = if j == k then x else m j

-- `int inode = …; if (inode <= 0) return 0; read_inode(…)`
unfoldable pub enter_directory : Pread → Volume → (name dest_inode : Bytes) → (inode : ℕ) → Walk
enter_directory pread v name dest inode =
    if (inode == 0) || leb (2 ^ 31) inode
    then missing dest
    else walking 0 name (receive (read_inode pread v inode) dest)

unfoldable pub path_step : Pread → Volume → (stack : ℕ) → Junk → (c : ℕ) → Walk → Run Walk
path_step pread v stack junk c (missing dest) = ok (missing dest)
path_step pread v stack junk c (walking i name dest) =
    if c == slash
    then (do
      inode ← find_file_in_directory pread v stack junk.curr (inode_at dest) name junk.buffer
      ok (enter_directory pread v name dest inode))
    else if ltb i 255
    then ok (walking (i + 1) (write (write name i c) (i + 1) 0) dest)
    else undefined

unfoldable pub path_loop : Pread → Volume → (stack : ℕ) → Junk → (path : List ℕ) → Walk → Run Walk
path_loop pread v stack junk [] w = ok w
path_loop pread v stack junk (c ∷ path) w = do
  next ← path_step pread v stack junk c w
  path_loop pread v stack junk path next

-- After the loop, `inode <= 0` compares the pointer that `malloc` returned, which is not NULL.
unfoldable pub found_at : (buffer : Bytes) → Walk → Found
found_at buffer (walking i name dest) = record { number = de_inode_no buffer; dest_inode = dest }
found_at buffer (missing dest) = record { number = 0; dest_inode = dest }

unfoldable pub find_file_below :
    Pread → Volume → (stack : ℕ) → Junk → (path : List ℕ) → (dest_inode : Bytes) → Run Found
find_file_below pread v stack junk [] dest =
    ok (record {
      number = 2;
      dest_inode = λ k. if ltb k v.s_inode_size then junk.inode k else dest k;
    })
find_file_below pread v stack junk (c ∷ path) dest = do
  w ← path_loop pread v stack junk (c ∷ path) (walking 0 junk.name dest)
  ok (found_at junk.buffer w)

unfoldable pub find_file_from_path :
    Pread → Volume → (stack : ℕ) → Junk → (path : List ℕ) → (dest_inode : Bytes) → Run Found
find_file_from_path pread v stack junk [] dest = ok (record { number = 0; dest_inode = dest })
find_file_from_path pread v stack junk (c ∷ path) dest =
    if not (c == slash)
    then ok (record { number = 0; dest_inode = dest })
    else find_file_below pread v stack junk path dest
