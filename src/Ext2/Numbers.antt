-- ===== src/Ext2/Numbers.antt =====
-- Where `open_volume_file` and `read_inode` of lab7/ext2.c look.
use native.Mathlib.Nat.{add-mul-div_right, div-eq_of_lt, mod-add-div', mod-lt}
use cs_261_basics_of_compute.Prelude.{
  ℕ, ◌+◌, ◌-◌, ◌*◌, ◌/◌, ◌%◌, ◌^◌, ◌≤◌, ◌<◌, ◌≡◌, some, arith, ap, ◌∙◌,
}
use cs_261_basics_of_compute.Ext2.Defs.{Pread, Volume, u32, read_block, read_inode, num_groups_of}
use cs_261_basics_of_compute.Ext2.Index.{Serves, bytes_of}

-- The groups cover the blocks, and none of them is superfluous, as long as the sum of the blocks and
-- those of a group is below 2^32.
pub num_groups_of_bounds :
    (blocks per_group : ℕ)
    → 0 < per_group
    → blocks + per_group < 2 ^ 32
    → (blocks ≤ num_groups_of blocks per_group * per_group)
      × (num_groups_of blocks per_group * per_group < blocks + per_group)
unfolding num_groups_of
num_groups_of_bounds blocks per_group positive small =
    let n = blocks + per_group - 1 in
    let low : u32 (blocks + per_group + 2 ^ 32 - 1) ≡ n = omega arith in
    let parts = mod-add-div' n per_group in
    let rest = mod-lt n positive in rw low (omega (arith, parts, rest), omega (arith, parts))

-- On a disk below 2^32 bytes that serves every read, the inode numbered k + 1 in a group is read from
-- place k of the inode table of that group.
pub read_inode-bytes_of :
    (pread : Pread) (disk : ℕ → ℕ) (v : Volume) (group k : ℕ)
    → Serves pread disk
    → k < v.s_inodes_per_group
    → group * v.s_inodes_per_group + k + 1 < 2 ^ 32
    → v.block_size * v.bg_inode_table group + k * v.s_inode_size < 2 ^ 32
    → read_inode pread v (group * v.s_inodes_per_group + k + 1)
      ≡ some (
          bytes_of disk (v.block_size * v.bg_inode_table group + k * v.s_inode_size) v.s_inode_size)
unfolding read_inode read_block
read_inode-bytes_of pread disk v group k serves lt number small =
    let g = v.s_inodes_per_group in
    let low : u32 (group * g + k + 1 + 2 ^ 32 - 1) ≡ group * g + k = omega arith in
    let quotient : (group * g + k) / g ≡ group =
      ap (λ x. x / g) (omega arith)
      ∙ add-mul-div_right k group (omega arith)
      ∙ omega (arith, div-eq_of_lt lt) in
    let rest : (group * g + k) % g ≡ k =
      let parts = rw quotient at (mod-add-div' (group * g + k) g) in omega (arith, parts) in
    let place : u32 (k * v.s_inode_size) ≡ k * v.s_inode_size = omega arith in
    let all : u32 (v.block_size * v.bg_inode_table group + k * v.s_inode_size)
        ≡ v.block_size * v.bg_inode_table group + k * v.s_inode_size =
      omega arith in
    rw (low, quotient, rest, place, all) (serves v.s_inode_size _)
