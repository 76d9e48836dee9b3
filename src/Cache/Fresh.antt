-- ===== src/Cache/Fresh.antt =====
-- The cache that `cache_new` of lab6/cache.c makes.
use native.Mathlib.Nat.{pow-suc, pow-zero, pow-le-pow_right, mul-div_cancel, mul-le-mul_left}
use cs_261_basics_of_compute.Prelude.{
  ℕ, zero, suc, ◌+◌, ◌*◌, ◌/◌, ◌^◌, ◌%◌, ◌≤◌, ◌<◌, ◌≡◌, refl, true, false, some, arith, ltb, ap,
  if◌then◌else◌, Bool-cases, inl, inr, ◌∙◌, sym, ◌==◌,
}
use cs_261_basics_of_compute.Prelude.Store.{write}
use cs_261_basics_of_compute.Cache.Defs.{
  Lines, Cache, u32, init_lines, cache_set_init, shift_loop, get_shift_and_mask, build_cache,
  cache_new,
}
use cs_261_basics_of_compute.Cache.Mirror.{Mirrors, two_pow_pos}

init_lines_invalid :
    (n : ℕ) (lines : Lines) (k : ℕ) → k < n → (init_lines n lines k).is_valid ≡ false
unfolding init_lines write
init_lines_invalid zero lines k p = absurd (omega arith)
init_lines_invalid (suc n) lines k p = elim (Bool-cases (k == n)) [
  | inl e ↦ rw e refl
  | inr e ↦ rw e (init_lines_invalid n lines k (ground arith))
]

shift_loop_step :
    (f v shift mask : ℕ)
    → ltb 1 v ≡ true
    → u32 (shift + 1) ≡ shift + 1
    → (mask * 2 + 1) % 2 ^ 64 ≡ mask * 2 + 1
    → shift_loop (suc f) v shift mask ≡ shift_loop f (v / 2) (shift + 1) (mask * 2 + 1)
unfolding shift_loop
shift_loop_step f v shift mask large counts wraps = rw (large, counts, wraps) refl

-- The loop counts the digits of a power of two.
shift_loop_pow :
    (fuel j v shift mask : ℕ)
    → v ≡ 2 ^ j
    → j < fuel
    → shift + j < 2 ^ 32
    → (mask + 1) * v ≤ 2 ^ 64
    → (m : ℕ) × (shift_loop fuel v shift mask ≡ some (shift + j, m)) × (m + 1 ≡ (mask + 1) * v)
unfolding shift_loop
shift_loop_pow zero j v shift mask is p q r = absurd (omega arith)
shift_loop_pow (suc f) zero v shift mask is p q r =
    let one : v ≡ 1 = omega (arith, pow-zero 2) in
    (mask, rw one (ap (λ x. some (x, mask)) (omega arith)), rw one (omega arith))
shift_loop_pow (suc f) (suc j) v shift mask is p q r =
    let positive = two_pow_pos j in
    let double : v ≡ 2 ^ j * 2 = omega (arith, pow-suc 2 j) in
    let large : ltb 1 v ≡ true = ground arith in
    let half : v / 2 ≡ 2 ^ j = omega arith in
    let total : (mask * 2 + 1 + 1) * (v / 2) ≡ (mask + 1) * v = rw (half, double) (grind arith) in
    let wide : (mask + 1) * 2 ≤ (mask + 1) * v = mul-le-mul_left (mask + 1) (omega arith) in
    let wraps : (mask * 2 + 1) % 2 ^ 64 ≡ mask * 2 + 1 = omega arith in
    let counts : u32 (shift + 1) ≡ shift + 1 = omega arith in
    let fits : (mask * 2 + 1 + 1) * (v / 2) ≤ 2 ^ 64 = omega (arith, total) in
    let short : shift + 1 + j < 2 ^ 32 = omega arith in
    let sum : shift + 1 + j ≡ shift + suc j = omega arith in
    let (m, run, e) =
      shift_loop_pow f j (v / 2) (shift + 1) (mask * 2 + 1) half (omega arith) short fits in
    (
      m,
      shift_loop_step f v shift mask large counts wraps ∙ run ∙ ap (λ x. some (x, m)) sum,
      e ∙ total,
    )

two_pow_small : (j : ℕ) → j < 32 → (0 + 1) * 2 ^ j ≤ 2 ^ 64
two_pow_small j p =
    omega (arith, pow-le-pow_right {n = 2} (omega arith) {i = j} {j = 64} (omega arith))

-- The shift and the mask for 2^j bytes or sets.
get_shift_and_mask_pow :
    (j shift : ℕ)
    → j < 32
    → shift + j < 2 ^ 32
    → (m : ℕ) × (get_shift_and_mask (2 ^ j) shift ≡ some (shift + j, m)) × (m + 1 ≡ 2 ^ j)
unfolding get_shift_and_mask
get_shift_and_mask_pow j shift p q =
    let (m, run, e) = shift_loop_pow 32 j (2 ^ j) shift 0 refl p q (two_pow_small j p) in
    (m, run, omega (arith, e))

new_run :
    (malloc_sets : ℕ → Lines) (num_blocks block_size associativity policies num_sets : ℕ)
    (index tag : ℕ × ℕ)
    → num_blocks / associativity ≡ num_sets
    → get_shift_and_mask block_size 0 ≡ some index
    → get_shift_and_mask num_sets index.0 ≡ some tag
    → cache_new malloc_sets num_blocks block_size associativity policies
      ≡ some (build_cache malloc_sets num_sets block_size associativity policies index tag)
unfolding cache_new
new_run malloc_sets num_blocks block_size associativity policies num_sets index tag n i t =
    rw (n, i) (rw t refl)

none_valid :
    (malloc_sets : ℕ → Lines) (num_sets associativity i k : ℕ)
    → i < num_sets
    → k < associativity
    → ((if ltb i num_sets then cache_set_init (malloc_sets i) associativity else malloc_sets i)
        k).is_valid
      ≡ true
    → ⊥
unfolding cache_set_init
none_valid malloc_sets num_sets associativity i k lt q valid =
    let test : ltb i num_sets ≡ true = ground arith in
    ground (arith, init_lines_invalid associativity (malloc_sets i) k q, rw test at valid)

some_path : (c c' : Cache) → some c ≡ some c' → c'.associativity ≡ c.associativity
some_path c c' e = let same : c ≡ c' = cc in ap (λ (x : Cache). x.associativity) (sym same)

module _ (malloc_sets : ℕ → Lines) (b s associativity policies : ℕ) (small_block : b < 32)
    (few_sets : s < 32) (some_lines : 0 < associativity) where
  -- For 2^b bytes in a block and 2^s sets, at most 31 digits each, `cache_new` gives an empty cache,
  -- which mirrors any memory.
  pub cache_new-Mirrors :
      (c : Cache) × (cache_new malloc_sets (2 ^ s * associativity) (2 ^ b) associativity policies
        ≡ some c)
      × ((mem : ℕ → ℕ) → Mirrors mem b s c)
      × (c.access_count ≡ 0)
      × (c.miss_count ≡ 0)
  unfolding cache_new build_cache cache_set_init
  cache_new-Mirrors =
      let (m1, run1, e1) = get_shift_and_mask_pow b 0 small_block (omega arith) in
      let (m2, run2, e2) = get_shift_and_mask_pow s (0 + b) few_sets (omega arith) in
      let sets : 2 ^ s * associativity / associativity ≡ 2 ^ s =
        mul-div_cancel (2 ^ s) some_lines in
      let c : Cache =
        build_cache malloc_sets (2 ^ s) (2 ^ b) associativity policies (0 + b, m1)
          (0 + b + s, m2) in
      (
        c,
        new_run malloc_sets (2 ^ s * associativity) (2 ^ b) associativity policies (2 ^ s)
            (0 + b, m1) (0 + b + s, m2) sets run1 run2,
        λ mem. record {
          block_size = refl;
          offset_mask = e1;
          index_mask = e2;
          index_shift = omega arith;
          tag_shift = omega arith;
          lines = some_lines;
          copies = λ i lt k q valid.
              absurd (none_valid malloc_sets (2 ^ s) associativity i k lt q valid);
        },
        refl,
        refl,
      )

  pub cache_new-associativity :
      (c : Cache)
      → cache_new malloc_sets (2 ^ s * associativity) (2 ^ b) associativity policies ≡ some c
      → c.associativity ≡ associativity
  unfolding build_cache
  cache_new-associativity c made =
      let (m1, run1, _) = get_shift_and_mask_pow b 0 small_block (omega arith) in
      let (m2, run2, _) = get_shift_and_mask_pow s (0 + b) few_sets (omega arith) in
      let sets : 2 ^ s * associativity / associativity ≡ 2 ^ s =
        mul-div_cancel (2 ^ s) some_lines in
      let run =
        new_run malloc_sets (2 ^ s * associativity) (2 ^ b) associativity policies (2 ^ s)
          (0 + b, m1) (0 + b + s, m2) sets run1 run2 in
      some_path
        (build_cache malloc_sets (2 ^ s) (2 ^ b) associativity policies (0 + b, m1) (0 + b + s, m2))
        c (sym run ∙ made)
