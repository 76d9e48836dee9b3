-- ===== src/Cache/Rates.antt =====
-- `print_stats` and `main` of lab6/cache-test.c: each of the three sums, through a new cache, and the
-- rate of misses. `mem` is memory before `fillArray`, and what the calls of `malloc` give is a parameter.
use cs_261_basics_of_compute.Prelude.{
  ℕ, ◌+◌, ◌*◌, ◌%◌, ◌^◌, ◌≤◌, ◌≡◌, refl, Option, none, some, true, false, arith, ◌==◌,
  if◌then◌else◌, Bool-cases, inl, inr, ◌∙◌, ap,
}
use cs_261_basics_of_compute.Cache.Defs.{
  Lines, Cache, cache_new, cache_miss_count, cache_access_count,
}
use cs_261_basics_of_compute.Cache.Mirror.{Mirrors}
use cs_261_basics_of_compute.Cache.Fresh.{cache_new-Mirrors, cache_new-associativity}
use cs_261_basics_of_compute.Cache.Direct.{Direct, has, has_line}
use cs_261_basics_of_compute.Cache.Sums.{Running, sum_a, sum_b, sum_c}
use cs_261_basics_of_compute.Cache.Totals.{sums-total}
use cs_261_basics_of_compute.Cache.Filled.{filled, filled_total}
use cs_261_basics_of_compute.Cache.Rows.{Read, sum_a-Read}
use cs_261_basics_of_compute.Cache.Sweep.{Sweep}
use cs_261_basics_of_compute.Cache.Columns.{sum_b-Sweep, sum_c-Sweep}

-- What is printed of the statistics: the two numbers whose quotient it is.
pub data Stats : Type 0 where
  unused : Stats
  miss_rate : (mc ac : ℕ) → Stats

unfoldable pub print_stats : Cache → Stats
print_stats c =
    let mc = cache_miss_count c in
    let ac = cache_access_count c in if ac == 0 then unused else miss_rate mc ac

-- A sum with its statistics.
pub record Printed : Type 0 where
  pub sum : ℕ
  pub stats : Stats

unfoldable pub sum_through : (Cache → Running) → Option Cache → Option Printed
sum_through sum none = none
sum_through sum (some c) =
    let r = sum c in some (record { sum = r.sum; stats = print_stats r.cache })

-- `CACHE_REPLACEMENTPOLICY_LRU` is 1.
abbrev pub test_cache : (ℕ → Lines) → Option Cache
test_cache malloc_sets = cache_new malloc_sets 256 64 1 1

-- The three lines, each `none` if the cache was not made.
unfoldable pub main :
    (mem : ℕ → ℕ) (test_array : ℕ) (malloc_a malloc_b malloc_c : ℕ → Lines)
    → Option Printed × Option Printed × Option Printed
main mem test_array malloc_a malloc_b malloc_c =
    let mem' = filled test_array mem in
    (
      sum_through (sum_a mem' test_array 64 64) (test_cache malloc_a),
      sum_through (sum_b mem' test_array 64 64) (test_cache malloc_b),
      sum_through (sum_c mem' test_array 64 64) (test_cache malloc_c),
    )

sum_through_lem :
    (sum : Cache → Running) (o : Option Cache) (c : Cache) (n mc : ℕ)
    → o ≡ some c
    → (sum c).sum ≡ n
    → (sum c).cache.miss_count ≡ mc
    → (sum c).cache.access_count ≡ 4096
    → sum_through sum o ≡ some (record { sum = n; stats = miss_rate mc 4096 })
unfolding sum_through print_stats cache_miss_count cache_access_count
sum_through_lem sum o c n mc made e misses accesses = rw (made, e, misses, accesses) refl

module _ (mem : ℕ → ℕ) (a : ℕ) (aligned : a % 64 ≡ 0) (below : a + 8 * 4096 ≤ 2 ^ 31) where
  -- A new cache holds no block: it mirrors any two memories.
  empty :
      (c : Cache)
      → c.associativity ≡ 1
      → ((m : ℕ → ℕ) → Mirrors m 6 8 c)
      → (block : ℕ) → has c block ≡ false
  empty c single mirrors block = elim (Bool-cases (has c block)) [
    | inr out ↦ out
    | inl there ↦
        let index = block % 256 in
        let valid : (c.sets index 0).is_valid ≡ true =
          unfold has has_line in ground (arith, there) in
        let zeros =
          (mirrors (λ _. 0)).copies index (omega arith) 0 (omega arith) valid 0 (omega arith) in
        let ones =
          (mirrors (λ _. 1)).copies index (omega arith) 0 (omega arith) valid 0 (omega arith) in
        absurd (omega (arith, zeros, ones))
  ]

  -- What the cache of one run is.
  fresh :
      (malloc_sets : ℕ → Lines)
      → (c : Cache) × (test_cache malloc_sets ≡ some c)
        × Mirrors mem 6 8 c
        × Read mem a aligned below 0 c
        × Sweep mem a aligned below 0 0 0 0 c
  fresh malloc_sets =
      let (c, made, mirrors, accesses, misses) =
        cache_new-Mirrors malloc_sets 6 8 1 1 (omega arith) (omega arith) (omega arith) in
      let single =
        cache_new-associativity malloc_sets 6 8 1 1 (omega arith) (omega arith) (omega arith) c
          made in
      let direct : Direct mem c = record { mirrors = mirrors mem; single = single } in
      let out = empty c single mirrors in
      (
        c,
        made,
        mirrors mem,
        record {
          direct = direct;
          accesses = accesses;
          misses = misses;
          behind = λ block e. absurd (ground (arith, out block, e));
          current = λ ne. absurd (ne refl);
        },
        record {
          direct = direct;
          accessed = accesses;
          missed = misses;
          stays = λ block e. absurd (ground (arith, out block, e));
        },
      )

module _ (mem : ℕ → ℕ) (a : ℕ) (aligned : a % 64 ≡ 0) (below : a + 8 * 4096 ≤ 2 ^ 31) where
  -- If the array is aligned to 64 bytes, and what is read of it ends by the address 2^31, then whatever
  -- memory and the lines of the caches held before, the program prints 4720640, the sum of the 4096
  -- elements that are read, three times. Of the 4096 reads, 512 are misses by rows, all by columns, and
  -- 2048 two by two.
  pub main-miss_rate :
      (malloc_a malloc_b malloc_c : ℕ → Lines)
      → main mem a malloc_a malloc_b malloc_c ≡ (
        some (record { sum = 4720640; stats = miss_rate 512 4096 }),
        some (record { sum = 4720640; stats = miss_rate 4096 4096 }),
        some (record { sum = 4720640; stats = miss_rate 2048 4096 }),
      )
  unfolding main
  main-miss_rate malloc_a malloc_b malloc_c =
      let m = filled a mem in
      let (c1, made1, mirrors1, read, _) = fresh m a aligned below malloc_a in
      let (c2, made2, mirrors2, _, sweep2) = fresh m a aligned below malloc_b in
      let (c3, made3, mirrors3, _, sweep3) = fresh m a aligned below malloc_c in
      let sums = λ (c : Cache) (w : Mirrors m 6 8 c).
        sums-total m a 6 8 (omega arith) (omega (arith, aligned)) 64 64 (omega (arith, below)) c w
          32 32 (omega arith) (omega arith) in
      let whole = filled_total a mem in
      let (sum1, _, _) = sums c1 mirrors1 in
      let (_, sum2, _) = sums c2 mirrors2 in
      let (_, _, sum3) = sums c3 mirrors3 in
      let by_rows = sum_a-Read m a aligned below c1 read in
      let by_columns = sum_b-Sweep m a aligned below c2 sweep2 in
      let by_blocks = sum_c-Sweep m a aligned below c3 sweep3 in
      rw
        (
          sum_through_lem (sum_a m a 64 64) _ c1 4720640 512 made1
              (sum1 ∙ ap (λ t. t % 2 ^ 64) whole) by_rows.misses by_rows.accesses,
          sum_through_lem (sum_b m a 64 64) _ c2 4720640 4096 made2
              (sum2 ∙ ap (λ t. t % 2 ^ 64) whole) by_columns.missed by_columns.accessed,
          sum_through_lem (sum_c m a 64 64) _ c3 4720640 2048 made3
              (sum3 ∙ ap (λ t. t % 2 ^ 32) whole) by_blocks.missed by_blocks.accessed,
        )
        refl
