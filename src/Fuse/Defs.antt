-- ===== src/Fuse/Defs.antt =====
-- The callbacks of lab7/ext2fs.c. Each call of `find_file_from_path` takes memory of its own (Junk), and
-- `inode` is what `malloc` gave for `read_inode`. The numbers of errors are those of Linux.
use cs_261_basics_of_compute.Prelude.{
  ℕ, ◌/◌, ◌%◌, ◌^◌, Bool, ◌||◌, not, none, List, [], ltb, leb, ◌==◌, if◌then◌else◌,
}
use cs_261_basics_of_compute.Prelude.Int.{ℤ, pos, negsuc}
use cs_261_basics_of_compute.Prelude.Run.{Run, ok, undefined, ◌>>=◌}
use cs_261_basics_of_compute.Ext2.Defs.{
  Pread, Volume, Inode, Outcome, failed, returned, read_file_content,
}
use cs_261_basics_of_compute.Ext2.Path.{
  Bytes, Junk, Found, inode_at, follow_directory_entries, find_file_from_path,
}

-- `-ENOENT`, `-EIO`, `-EACCES`, `-EISDIR` and `-EINVAL`.
abbrev pub no_entry : ℤ
no_entry = negsuc 1

abbrev pub io_error : ℤ
io_error = negsuc 4

abbrev pub access_denied : ℤ
access_denied = negsuc 12

abbrev pub is_directory : ℤ
is_directory = negsuc 20

abbrev pub invalid : ℤ
invalid = negsuc 21

-- `EISDIR`, without the sign.
abbrev pub eisdir : ℤ
eisdir = pos 21

-- `(inode->i_mode >> 12) == 4`
unfoldable pub has_directory_mode : (inode : Bytes) → Bool
has_directory_mode inode = (inode_at inode).i_mode / 2 ^ 12 == 4

-- `struct stat`, as far as it is written.
pub record Stat : Type 0 where
  pub st_mode : ℕ
  pub st_uid : ℕ
  pub st_size : ℕ
  pub st_atime : ℕ
  pub st_ctime : ℕ
  pub st_mtime : ℕ
  pub st_gid : ℕ
  pub st_nlink : ℕ
  pub st_blocks : ℕ
  pub st_ino : ℕ
  pub st_blksize : ℕ

unfoldable pub stat_of : Volume → Inode → (st_ino : ℕ) → Stat
stat_of v inode st_ino = record {
  st_mode = inode.i_mode;
  st_uid = inode.i_uid;
  st_size = inode.i_size;
  st_atime = inode.i_atime;
  st_ctime = inode.i_ctime;
  st_mtime = inode.i_mtime;
  st_gid = inode.i_gid;
  st_nlink = inode.i_links_count;
  st_blocks = inode.i_blocks;
  st_ino = st_ino;
  st_blksize = v.block_size;
}

-- What `ext2_getattr` and `ext2_open` leave behind with their code.
pub record Reply {ℓ} (A : Type ℓ) : Type ℓ where
  pub code : ℤ
  pub left : A

unfoldable pub getattr_found :
    Pread
    → Volume
    → (stack : ℕ) → (second : Junk) → (path : List ℕ) → Stat
    → Found
    → Run (Reply Stat)
getattr_found pread v stack second path stbuf first =
    if not (first.number == 0)
    then (do
      again ← find_file_from_path pread v stack second path first.dest_inode
      ok (record { code = pos 0; left = stat_of v (inode_at first.dest_inode) again.number }))
    else ok (record { code = no_entry; left = stbuf })

unfoldable pub ext2_getattr :
    Pread
    → Volume
    → (stack : ℕ) → (first second : Junk) → (inode : Bytes) (path : List ℕ) → (stbuf : Stat)
    → Run (Reply Stat)
ext2_getattr pread v stack first second inode path stbuf =
    find_file_from_path pread v stack first path inode
    >>= getattr_found pread v stack second path stbuf

-- The condition after the search: the entries are followed with NULL for the visit.
unfoldable pub readdir_found : Pread → Volume → (stack : ℕ) → (curr : Bytes) → Found → Run ℤ
readdir_found pread v stack curr found =
    if (found.number == 0) || not (has_directory_mode found.dest_inode) then ok no_entry else (do
      number ← follow_directory_entries pread v stack curr (inode_at found.dest_inode) none none
      ok (if number == 0 then no_entry else pos 0))

unfoldable pub ext2_readdir :
    Pread → Volume → (stack : ℕ) → (junk : Junk) → (curr inode : Bytes) (path : List ℕ) → Run ℤ
ext2_readdir pread v stack junk curr inode path =
    find_file_from_path pread v stack junk path inode >>= readdir_found pread v stack curr

-- `fi->flags & O_WRONLY || fi->flags & O_RDWR`
unfoldable pub opens_for_writing : (flags : ℕ) → Bool
opens_for_writing flags = (flags % 2 == 1) || (flags / 2 % 2 == 1)

unfoldable pub open_found :
    Pread
    → Volume
    → (stack : ℕ) → (second : Junk) → (path : List ℕ) → (fh : ℕ) → Found
    → Run (Reply ℕ)
open_found pread v stack second path fh first =
    if not (first.number == 0)
    then (do
      again ← find_file_from_path pread v stack second path first.dest_inode
      ok (record { code = pos 0; left = again.number }))
    else ok (record { code = no_entry; left = fh })

-- `left` is `fi->fh`.
unfoldable pub ext2_open :
    Pread
    → Volume
    → (stack : ℕ) → (first second : Junk) → (inode : Bytes) (path : List ℕ) (flags fh : ℕ)
    → Run (Reply ℕ)
ext2_open pread v stack first second inode path flags fh =
    if opens_for_writing flags
    then ok (record { code = access_denied; left = fh })
    else if has_directory_mode inode
    then ok (record { code = eisdir; left = fh })
    else find_file_from_path pread v stack first path inode
      >>= open_found pread v stack second path fh

unfoldable pub ext2_release : (path : List ℕ) (fh : ℕ) → ℤ
ext2_release path fh = pos 0

-- The tests of `ext2_read` once the file has been read. `left` is what was read; it is empty where the
-- code is an error.
unfoldable pub read_reply : Found → Outcome → Run (Reply (List ℕ))
read_reply found Outcome.out_of_fuel = Run.out_of_fuel
read_reply found failed =
    if has_directory_mode found.dest_inode
    then ok (record { code = is_directory; left = [] })
    else if found.number == 0
    then ok (record { code = no_entry; left = [] })
    else ok (record { code = io_error; left = [] })
read_reply found (returned n content) =
    if has_directory_mode found.dest_inode
    then ok (record { code = is_directory; left = [] })
    else if found.number == 0
    then ok (record { code = no_entry; left = [] })
    else if ltb (n % 2 ^ 32) (2 ^ 31)
    then ok (record { code = pos (n % 2 ^ 32); left = content })
    else ok (record { code = io_error; left = [] })

unfoldable pub ext2_read :
    (fuel : ℕ)
    → Pread
    → Volume
    → (stack : ℕ) → (junk : Junk) → (inode : Bytes) (path : List ℕ) (size offset : ℕ)
    → Run (Reply (List ℕ))
ext2_read fuel pread v stack junk inode path size offset = do
  found ← find_file_from_path pread v stack junk path inode
  let content = read_file_content fuel pread v stack (inode_at found.dest_inode) offset size
  read_reply found content

-- `buf[size] = '\0'` in an array of `capacity` bytes, unless the reading failed.
unfoldable pub end_target : (capacity size : ℕ) → Outcome → Run ℤ
end_target capacity size Outcome.out_of_fuel = Run.out_of_fuel
end_target capacity size failed = ok io_error
end_target capacity size (returned n content) = if ltb size capacity then ok (pos 0) else undefined

unfoldable pub readlink_found :
    (fuel : ℕ) → Pread → Volume → (stack capacity size : ℕ) → Found → Run ℤ
readlink_found fuel pread v stack capacity size found =
    if found.number == 0
    then ok no_entry
    else if leb (inode_at found.dest_inode).i_size 60
    then ok invalid
    else end_target capacity size
        (read_file_content fuel pread v stack (inode_at found.dest_inode) 0 size)

unfoldable pub ext2_readlink :
    (fuel : ℕ)
    → Pread
    → Volume
    → (stack : ℕ) → (junk : Junk) → (inode : Bytes) (path : List ℕ) (capacity size : ℕ) → Run ℤ
ext2_readlink fuel pread v stack junk inode path capacity size =
    find_file_from_path pread v stack junk path inode
    >>= readlink_found fuel pread v stack capacity size
