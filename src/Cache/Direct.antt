-- ===== src/Cache/Direct.antt =====
-- The cache of lab6/cache.c as lab6/cache-test.c sets it up: 256 sets of one line each, with blocks
-- of 64 bytes. Blocks are numbered by their address.
use cs_261_basics_of_compute.Prelude.{
  ℕ, ◌+◌, ◌/◌, ◌%◌, ◌^◌, ◌<◌, ◌≡◌, ◌≢◌, ◌⊎◌, refl, Bool, true, false, not, ◌&&◌, arith, ◌==◌,
  if◌then◌else◌, Bool-cases, inl, inr,
}
use cs_261_basics_of_compute.Prelude.Store.{write}
use cs_261_basics_of_compute.Cache.Defs.{Line, Lines, Cache, u32, provide_line, cache_read}
use cs_261_basics_of_compute.Cache.Hit.{
  Provided, hit, invalid, absent, provide_line-Provided, Provided-front,
}
use cs_261_basics_of_compute.Cache.Mirror.{Mirrors, cache_read-Mirrors, set_of, tag_of}

pub record Direct (mem : ℕ → ℕ) (c : Cache) : Type 0 where
  pub mirrors : Mirrors mem 6 8 c
  pub single : c.associativity ≡ 1

-- A valid line with the tag of the block.
unfoldable pub has_line : Line → ℕ → Bool
has_line line block = line.is_valid && (line.tag == block / 256)

unfoldable pub has : Cache → ℕ → Bool
has c block = has_line (c.sets (block % 256) 0) block

Provided-miss :
    (mem : ℕ → ℕ) (c : Cache) (lines : Lines) (a block : ℕ) (r : Lines × Bool)
    → c.associativity ≡ 1
    → Provided mem c lines a (block / 256) r
    → r.1 ≡ not (has_line (lines 0) block)
unfolding has_line
Provided-miss mem c lines a block _ single (hit {k = k} lt tag valid) =
    let first : k ≡ 0 = omega arith in ground (arith, rw first at tag, rw first at valid)
Provided-miss mem c lines a block _ single (invalid {k = k} lt tag stale) =
    let first : k ≡ 0 = omega arith in ground (arith, rw first at stale)
Provided-miss mem c lines a block _ single (absent none) =
    let other = none 0 (omega arith) in ground (arith, other)

eq_sym : (x y : ℕ) → (x == y) ≡ (y == x)
eq_sym x y = ground arith

module _ (mem : ℕ → ℕ) (c : Cache) (d : Direct mem c) (a : ℕ) (small : a < 2 ^ 31) where
  same_tag : a / 2 ^ (6 + 8) ≡ a / 64 / 256
  same_tag = omega arith

  -- A read is a miss if the set does not have the block.
  pub cache_read-miss_count :
      (cache_read mem c a).1.miss_count
      ≡ (if has c (a / 64) then c.miss_count else u32 (c.miss_count + 1))
  unfolding cache_read has
  cache_read-miss_count =
      let set = c.sets (a / 64 % 256) in
      let r = provide_line mem c set a (a / 64 / 256) in
      let miss : r.1 ≡ not (has_line (set 0) (a / 64)) =
        Provided-miss mem c set a (a / 64) r d.single
          (provide_line-Provided mem c set a (a / 64 / 256)) in
      rw (set_of mem 6 8 c d.mirrors a small, tag_of mem 6 8 c d.mirrors a small, same_tag)
        (ground (arith, miss))

  -- It leaves the block in its set.
  pub cache_read-has :
      (block : ℕ)
      → has (cache_read mem c a).1 block
        ≡ (if block % 256 == a / 64 % 256 then block / 256 == a / 64 / 256 else has c block)
  unfolding cache_read has has_line write
  cache_read-has block =
      let set = c.sets (a / 64 % 256) in
      let r = provide_line mem c set a (a / 64 / 256) in
      let (tag, valid) =
        Provided-front mem c set a (a / 64 / 256) r
          (provide_line-Provided mem c set a (a / 64 / 256)) in
      rw (set_of mem 6 8 c d.mirrors a small, tag_of mem 6 8 c d.mirrors a small, same_tag)
        (elim (Bool-cases (block % 256 == a / 64 % 256)) [
          | inl here ↦ rw (here, tag, valid) (eq_sym (a / 64 / 256) (block / 256))
          | inr there ↦ rw there refl
        ])

  pub cache_read-access_count : (cache_read mem c a).1.access_count ≡ u32 (c.access_count + 1)
  unfolding cache_read
  cache_read-access_count = refl

  pub cache_read-Direct : a % 8 ≡ 0 → Direct mem (cache_read mem c a).1
  cache_read-Direct aligned = record {
    mirrors = (cache_read-Mirrors mem 6 8 c d.mirrors a small (omega arith)).1;
    single = unfold cache_read in d.single;
  }

  pub has_here : has (cache_read mem c a).1 (a / 64) ≡ true
  has_here = ground (arith, cache_read-has (a / 64))

  pub has_elsewhere :
      (block : ℕ) → block % 256 ≢ a / 64 % 256 → has (cache_read mem c a).1 block ≡ has c block
  has_elsewhere block other = ground (arith, cache_read-has block)

  -- What is there after a read is the block that was read, or was there before in another set.
  pub has_before :
      (block : ℕ)
      → has (cache_read mem c a).1 block ≡ true
      → (block ≡ a / 64) ⊎ ((block % 256 ≢ a / 64 % 256) × (has c block ≡ true))
  has_before block e = elim (Bool-cases (block % 256 == a / 64 % 256)) [
    | inl here ↦
        let tag : (block / 256 == a / 64 / 256) ≡ true =
          ground (arith, cache_read-has block, here, e) in
        inl (ground (arith, here, tag))
    | inr there ↦ inr (ground (arith, there), ground (arith, cache_read-has block, there, e))
  ]

  pub read_hit : has c (a / 64) ≡ true → (cache_read mem c a).1.miss_count ≡ c.miss_count
  read_hit e = ground (arith, cache_read-miss_count, e)

  pub read_miss :
      has c (a / 64) ≡ false → (cache_read mem c a).1.miss_count ≡ u32 (c.miss_count + 1)
  read_miss e = ground (arith, cache_read-miss_count, e)
