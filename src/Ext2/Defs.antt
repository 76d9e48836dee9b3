-- ===== src/Ext2/Defs.antt =====
-- Blocks, the index of the blocks of a file, and its contents. `pread` on the volume file is a
-- parameter: what a read of `size` bytes at `offset` gives, `none` for -1 and else the bytes that
-- arrive. A product that the source computes in `int` is not cut here; it fits for blocks of up to 4096
-- bytes. Where the source divides by zero, for blocks of no bytes or groups of no inodes, the quotient
-- is 0 here.
use cs_261_basics_of_compute.Prelude.{
  ℕ, zero, suc, ◌+◌, ◌-◌, ◌*◌, ◌/◌, ◌%◌, ◌^◌, ◌&&◌, Option, none, some, List, [], ◌∷◌, ◌++◌, ltb,
  leb, ◌==◌, if◌then◌else◌, length,
}

abbrev pub Pread : Type 0
Pread = (size offset : ℕ) → Option (List ℕ)

-- The fields of `volume_t`, of its superblock and of its group descriptors that reading a file uses.
pub record Volume : Type 0 where
  pub s_inodes_per_group : ℕ
  pub s_inode_size : ℕ
  pub s_feature_ro_compat : ℕ
  pub block_size : ℕ
  pub bg_inode_table : ℕ → ℕ

-- The fields of `inode_t` that the code uses; `i_block` is an array of twelve.
pub record Inode : Type 0 where
  pub i_mode : ℕ
  pub i_uid : ℕ
  pub i_size : ℕ
  pub i_atime : ℕ
  pub i_ctime : ℕ
  pub i_mtime : ℕ
  pub i_gid : ℕ
  pub i_links_count : ℕ
  pub i_blocks : ℕ
  pub i_block : ℕ → ℕ
  pub i_block_1ind : ℕ
  pub i_block_2ind : ℕ
  pub i_block_3ind : ℕ
  pub i_dir_acl : ℕ

abbrev pub u32 : ℕ → ℕ
u32 n = n % 2 ^ 32

abbrev pub u64 : ℕ → ℕ
u64 n = n % 2 ^ 64

abbrev pub ext2_invalid_block_number : ℕ
ext2_invalid_block_number = 2 ^ 32 - 1

-- The offset is computed in 32 bits.
unfoldable pub read_block : Pread → Volume → (block_no offset size : ℕ) → Option (List ℕ)
read_block pread v block_no offset size = pread size (u32 (v.block_size * block_no + offset))

-- The bytes that `read_inode` puts into its buffer. The group and the index are `int` in the source, and
-- are not cut here.
unfoldable pub read_inode : Pread → Volume → (inode_no : ℕ) → Option (List ℕ)
read_inode pread v inode_no =
    let block_group = u32 (inode_no + 2 ^ 32 - 1) / v.s_inodes_per_group in
    let index = u32 (inode_no + 2 ^ 32 - 1) % v.s_inodes_per_group in
    read_block pread v (v.bg_inode_table block_group) (u32 (index * v.s_inode_size)) v.s_inode_size

-- The values that `open_volume_file` computes: the size of a block, the number of groups, and the place
-- of the group descriptors.
unfoldable pub block_size_of : (s_log_block_size : ℕ) → ℕ
block_size_of s_log_block_size = u32 (1024 * 2 ^ s_log_block_size)

unfoldable pub num_groups_of : (s_blocks_count s_blocks_per_group : ℕ) → ℕ
num_groups_of s_blocks_count s_blocks_per_group =
    u32 (s_blocks_count + s_blocks_per_group + 2 ^ 32 - 1) / s_blocks_per_group

unfoldable pub groups_offset : (block_size : ℕ) → ℕ
groups_offset block_size = if leb 2048 block_size then block_size else u32 (block_size * 2)

-- The first bytes of an `int` that has the pattern `old`, replaced by those that were read: the lowest
-- first, `n` of them at most.
unfoldable pub fill_int : (n : ℕ) → List ℕ → ℕ → ℕ
fill_int zero bytes old = old
fill_int (suc n) [] old = old
fill_int (suc n) (x ∷ bytes) old = x + fill_int n bytes (old / 2 ^ 8) * 2 ^ 8

-- `buffer` is the pattern of the variable that is not initialised.
unfoldable pub entry_of : (buffer : ℕ) → Option (List ℕ) → ℕ
entry_of buffer none = ext2_invalid_block_number
entry_of buffer (some []) = ext2_invalid_block_number
entry_of buffer (some (x ∷ bytes)) = fill_int 4 (x ∷ bytes) buffer

unfoldable pub read_ind_block_entry : Pread → Volume → (buffer ind_block_no index : ℕ) → ℕ
read_ind_block_entry pread v buffer ind_block_no index =
    entry_of buffer (read_block pread v ind_block_no (u32 (4 * index)) 4)

unfoldable pub get_inode_block_no : Pread → Volume → (buffer : ℕ) → Inode → (block_idx : ℕ) → ℕ
get_inode_block_no pread v buffer inode block_idx =
    let n = v.block_size / 4 in
    let entry = read_ind_block_entry pread v buffer in
    if ltb block_idx 12
    then inode.i_block block_idx
    else if leb 12 block_idx && ltb block_idx (12 + n)
    then entry inode.i_block_1ind (u32 (block_idx - 12))
    else if leb (12 + n) block_idx && ltb block_idx (12 + n + n * n)
    then (let second = entry inode.i_block_2ind (u32 ((block_idx - 12 - n) / (n * n))) in
        entry second (u32 (block_idx - 12 - n)))
    else if leb (12 + n + n * n) block_idx && ltb block_idx (12 + n + n * n + n * n * n)
    then (let index = (block_idx - 12 - n - n * n) / (n * n) / (n * n * n) in
        let third = entry inode.i_block_3ind (u32 index) in
        let second = entry third (u32 (index * (n * n * n))) in
        entry second (u32 (block_idx - 12 - n - n * n)))
    else ext2_invalid_block_number

unfoldable pub read_file_block :
    Pread → Volume → (buffer : ℕ) → Inode → (offset max_size : ℕ) → Option (List ℕ)
read_file_block pread v buffer inode offset max_size =
    let block_no = get_inode_block_no pread v buffer inode (offset / v.block_size) in
    read_block pread v block_no (u32 (offset % v.block_size)) (u32 max_size)

-- `LARGE_FILE` is the second lowest bit of the features, and `S_IFMT` selects the file type, 4 bits
-- from the 12th on, of which a regular file has 8.
unfoldable pub inode_file_size : Volume → Inode → ℕ
inode_file_size v inode =
    if (v.s_feature_ro_compat / 2 % 2 == 1) && (inode.i_mode / 2 ^ 12 % 2 ^ 4 == 8)
    then inode.i_dir_acl * 2 ^ 32 + inode.i_size
    else inode.i_size

-- What `read_file_content` ends with: -1, or a number and the bytes that it has put into the buffer.
pub data Outcome : Type 0 where
  failed : Outcome
  returned : ℕ → List ℕ → Outcome
  out_of_fuel : Outcome

-- What follows a read: -1 is returned, as is 0 if no byte has arrived, and else the next round begins.
unfoldable pub after_read :
    (read_so_far : ℕ) (content : List ℕ) → (ℕ → List ℕ → Outcome) → Option (List ℕ) → Outcome
after_read so_far content next none = failed
after_read so_far content next (some []) = returned 0 content
after_read so_far content next (some (x ∷ bytes)) =
    next (u32 (so_far + length (x ∷ bytes))) (content ++ x ∷ bytes)

-- The `while` loop, with `content` the bytes read so far.
unfoldable pub content_loop :
    (fuel : ℕ)
    → Pread
    → Volume
    → (buffer : ℕ) → Inode
    → (offset max_size read_so_far : ℕ) (content : List ℕ) → Outcome
content_loop zero pread v buffer inode offset max_size so_far content = out_of_fuel
content_loop (suc k) pread v buffer inode offset max_size so_far content =
    if ltb so_far max_size
    then after_read so_far content (content_loop k pread v buffer inode offset max_size)
        (read_file_block pread v buffer inode (u64 (offset + so_far)) (max_size - so_far))
    else returned so_far content

unfoldable pub read_file_content :
    (fuel : ℕ) → Pread → Volume → (buffer : ℕ) → Inode → (offset max_size : ℕ) → Outcome
read_file_content fuel pread v buffer inode offset max_size =
    let limit =
      if ltb (inode_file_size v inode) (u64 (offset + max_size))
      then u64 (inode_file_size v inode + 2 ^ 64 - offset)
      else max_size in
    content_loop fuel pread v buffer inode offset limit 0 []
