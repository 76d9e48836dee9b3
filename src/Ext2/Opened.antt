-- ===== src/Ext2/Opened.antt =====
-- What `open_volume_file` of lab7/ext2.c reads from the disk, and the inodes of an open volume.
use native.Mathlib.Nat.{pow-le-pow_right, mul-le-mul_right}
use cs_261_basics_of_compute.Prelude.{
  ℕ, ◌+◌, ◌*◌, ◌^◌, ◌≤◌, ◌<◌, ◌≡◌, refl, sym, ap, false, some, ltb, leb, ◌==◌, if◌then◌else◌,
  Bool-cases, inl, inr, arith, ◌∙◌, ◌||◌, dec_lt,
}
use cs_261_basics_of_compute.Prelude.Run.{ok}
use cs_261_basics_of_compute.Cache.Mirror.{two_pow_pos}
use cs_261_basics_of_compute.Ext2.Defs.{
  Pread, Volume, block_size_of, num_groups_of, groups_offset, read_inode,
}
use cs_261_basics_of_compute.Ext2.Index.{Serves, bytes_of}
use cs_261_basics_of_compute.Ext2.Numbers.{read_inode-bytes_of, num_groups_of_bounds}
use cs_261_basics_of_compute.Ext2.Path.{Bytes, fill, receive, le16, le32}
use cs_261_basics_of_compute.Ext2.Directory.{fill-bytes_of}
use cs_261_basics_of_compute.Ext2.Opening.{
  s_blocks_count, s_log_block_size, s_blocks_per_group, volume_of, open_groups, open_volume_file,
}

module _ (disk : ℕ → ℕ) (b n : ℕ) (m : Bytes) where
  at-fill : (a j : ℕ) → a + j < n → fill (bytes_of disk b n) m (a + j) ≡ disk (b + a + j)
  at-fill a j lt = fill-bytes_of disk n b (a + j) m lt ∙ ap disk (omega arith)

  le16-fill : (a : ℕ) → a + 2 ≤ n → le16 (fill (bytes_of disk b n) m) a ≡ le16 disk (b + a)
  le16-fill a le =
      let first : fill (bytes_of disk b n) m a ≡ disk (b + a) =
        fill-bytes_of disk n b a m (omega arith) in
      omega (arith, first, at-fill a 1 (omega arith))

  le32-fill : (a : ℕ) → a + 4 ≤ n → le32 (fill (bytes_of disk b n) m) a ≡ le32 disk (b + a)
  le32-fill a le =
      let low = le16-fill a (omega arith) in
      let high = le16-fill (a + 2) (omega arith) in
      let there : le16 disk (b + (a + 2)) ≡ le16 disk (b + a + 2) = ap (le16 disk) (omega arith) in
      omega (arith, low, high, there)

-- A volume as it lies on the disk: the superblock at byte 1024, and the group descriptors in the block
-- behind it.
pub record IsOpened (disk : ℕ → ℕ) (v : Volume) : Type 0 where
  pub inodes_per_group : v.s_inodes_per_group ≡ le32 disk 1064
  pub inode_size : v.s_inode_size ≡ le16 disk 1112
  pub feature_ro_compat : v.s_feature_ro_compat ≡ le32 disk 1124
  pub block_size : v.block_size ≡ 1024 * 2 ^ le32 disk 1048
  pub inode_table :
      (g : ℕ)
      → g * le32 disk 1056 < le32 disk 1028
      → v.bg_inode_table g
        ≡ le32 disk ((if leb 2048 v.block_size then v.block_size else 2048) + (32 * g + 8))

-- Memory that holds the superblock of the disk.
record IsSuper (disk : ℕ → ℕ) (super : Bytes) : Type 0 where
  blocks : le32 super 4 ≡ le32 disk 1028
  log : le32 super 24 ≡ le32 disk 1048
  per_group : le32 super 32 ≡ le32 disk 1056
  inodes : le32 super 40 ≡ le32 disk 1064
  inode_size : le16 super 88 ≡ le16 disk 1112
  feature : le32 super 100 ≡ le32 disk 1124

fill-IsSuper : (disk : ℕ → ℕ) (super : Bytes) → IsSuper disk (fill (bytes_of disk 1024 204) super)
fill-IsSuper disk super = record {
  blocks = le32-fill disk 1024 204 super 4 (omega arith);
  log = le32-fill disk 1024 204 super 24 (omega arith);
  per_group = le32-fill disk 1024 204 super 32 (omega arith);
  inodes = le32-fill disk 1024 204 super 40 (omega arith);
  inode_size = le16-fill disk 1024 204 super 88 (omega arith);
  feature = le32-fill disk 1024 204 super 100 (omega arith);
}

block_size_of_lem : (k : ℕ) → k ≤ 20 → block_size_of k ≡ 1024 * 2 ^ k
unfolding block_size_of
block_size_of_lem k le =
    let bound : 2 ^ k ≤ 2 ^ 20 = pow-le-pow_right {n = 2} (omega arith) {i = k} {j = 20} le in
    omega (arith, bound)

groups_offset_lem :
    (k : ℕ)
    → k ≤ 20
    → groups_offset (1024 * 2 ^ k) ≡ (if leb 2048 (1024 * 2 ^ k) then 1024 * 2 ^ k else 2048)
unfolding groups_offset
groups_offset_lem k le = elim (Bool-cases (leb 2048 (1024 * 2 ^ k))) [
  | inl large ↦ rw large refl
  | inr less ↦ let one : 2 ^ k ≡ 1 = ground (arith, two_pow_pos k) in rw one refl
]

below_groups :
    (g blocks per_group : ℕ)
    → 0 < per_group
    → blocks + per_group < 2 ^ 32
    → g * per_group < blocks
    → g < num_groups_of blocks per_group
below_groups g blocks per_group positive small lt =
    let enough = (num_groups_of_bounds blocks per_group positive small).0 in
    elim (dec_lt g (num_groups_of blocks per_group)) [
      | yes inside ↦ inside
      | no outside ↦
          let more =
            mul-le-mul_right {m = num_groups_of blocks per_group} {n = g} per_group
              (omega (arith, outside)) in
          absurd (omega (arith, more, enough))
    ]

module _ (pread : Pread) (disk : ℕ → ℕ) (serves : Serves pread disk) where
  table-le32 :
      (super groups : Bytes)
      → IsSuper disk super
      → le32 disk 1048 ≤ 20
      → 0 < le32 disk 1056
      → le32 disk 1028 + le32 disk 1056 < 2 ^ 32
      → (g : ℕ) → g * le32 disk 1056 < le32 disk 1028
      → let size = block_size_of (s_log_block_size super) in
        le32
          (fill
            (bytes_of disk
              (groups_offset size)
              (32 * num_groups_of (s_blocks_count super) (s_blocks_per_group super)))
            groups)
          (32 * g + 8)
        ≡ le32 disk ((if leb 2048 size then size else 2048) + (32 * g + 8))
  table-le32 super groups w shift positive small g lt =
      let size = block_size_of (s_log_block_size super) in
      let num_groups = num_groups_of (s_blocks_count super) (s_blocks_per_group super) in
      let inside : g < num_groups =
        rw (w.blocks, w.per_group) (below_groups g _ _ positive small lt) in
      let place : groups_offset size ≡ (if leb 2048 size then size else 2048) =
        rw (w.log, block_size_of_lem _ shift) (groups_offset_lem (le32 disk 1048) shift) in
      le32-fill disk (groups_offset size) (32 * num_groups) groups (32 * g + 8)
        (omega (arith, inside))
      ∙ ap (λ z. le32 disk (z + (32 * g + 8))) place

  open_groups-IsOpened :
      (super groups : Bytes)
      → IsSuper disk super
      → le32 disk 1048 ≤ 20
      → 0 < le32 disk 1056
      → le32 disk 1028 + le32 disk 1056 < 2 ^ 32
      → (v : Volume) × (open_groups pread super groups ≡ ok (some v)) × IsOpened disk v
  unfolding open_groups volume_of receive
  open_groups-IsOpened super groups w shift positive small =
      let k = le32 disk 1048 in
      let size : block_size_of (le32 super 24) ≡ 1024 * 2 ^ k =
        ap block_size_of w.log ∙ block_size_of_lem k shift in
      let offset = groups_offset (block_size_of (le32 super 24)) in
      let num_groups = num_groups_of (le32 super 4) (le32 super 32) in
      let fits : (ltb 20 (le32 super 24) || (le32 super 32 == 0)) ≡ false =
        ground (arith, w.log, w.per_group) in
      (
        volume_of super (receive (pread (32 * num_groups) offset) groups),
        rw fits refl,
        record {
          inodes_per_group = w.inodes;
          inode_size = w.inode_size;
          feature_ro_compat = w.feature;
          block_size = size;
          inode_table = λ g lt.
              rw (serves (32 * num_groups) offset)
                (table-le32 super groups w shift positive small g lt);
        },
      )

  -- On a disk that serves every read, with blocks of at most 2^30 bytes, at least one block in a
  -- group, and the sum of the blocks and those of a group below 2^32, `open_volume_file` gives the
  -- volume that lies on the disk, whatever its magic number is.
  pub open_volume_file-IsOpened :
      (super groups : Bytes)
      → le32 disk 1048 ≤ 20
      → 0 < le32 disk 1056
      → le32 disk 1028 + le32 disk 1056 < 2 ^ 32
      → (v : Volume) × (open_volume_file (some pread) super groups ≡ ok (some v)) × IsOpened disk v
  unfolding open_volume_file receive
  open_volume_file-IsOpened super groups shift positive small = rw (serves 204 1024) (
      open_groups-IsOpened (fill (bytes_of disk 1024 204) super) groups (fill-IsSuper disk super)
        shift positive small)

  -- Reading an inode, by what the fields of the volume are.
  read_inode-fields :
      (v : Volume) (group k inodes size block_size table : ℕ)
      → v.s_inodes_per_group ≡ inodes
      → v.s_inode_size ≡ size
      → v.block_size ≡ block_size
      → v.bg_inode_table group ≡ table
      → k < inodes
      → group * inodes + k + 1 < 2 ^ 32
      → block_size * table + k * size < 2 ^ 32
      → read_inode pread v (group * inodes + k + 1)
        ≡ some (bytes_of disk (block_size * table + k * size) size)
  read_inode-fields v group k inodes size block_size table e1 e2 e3 e4 lt number small =
      rw (sym e1, sym e2, sym e3, sym e4)
        (read_inode-bytes_of pread disk v group k serves (rw e1 lt) (rw e1 number)
          (rw (e2, e3, e4) small))

  -- On a volume as `open_volume_file` gives it, on a disk that serves every read, the inode
  -- numbered k + 1 in a group that has blocks is read from place k of the table that the
  -- descriptor of the group on disk names, for k below the inodes of a group, and as long as the
  -- number and the bytes lie below 2^32.
  pub read_inode-IsOpened :
      (v : Volume) (group k : ℕ)
      → IsOpened disk v
      → group * le32 disk 1056 < le32 disk 1028
      → k < le32 disk 1064
      → group * le32 disk 1064 + k + 1 < 2 ^ 32
      → let size = 1024 * 2 ^ le32 disk 1048 in
        let table = le32 disk ((if leb 2048 size then size else 2048) + (32 * group + 8)) in
        size * table + k * le16 disk 1112 < 2 ^ 32
        → read_inode pread v (group * le32 disk 1064 + k + 1)
          ≡ some (bytes_of disk (size * table + k * le16 disk 1112) (le16 disk 1112))
  read_inode-IsOpened v group k w inside lt number small =
      let opened = w.inode_table group inside in
      read_inode-fields v group k _ _ _ _ w.inodes_per_group w.inode_size w.block_size
        (rw w.block_size at opened) lt number small
