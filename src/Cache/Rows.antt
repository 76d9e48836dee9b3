-- ===== src/Cache/Rows.antt =====
-- `sumA` of lab6/cache-test.c: a sum row by row misses once for each block.
use cs_261_basics_of_compute.Prelude.{
  ℕ, ◌+◌, ◌*◌, ◌/◌, ◌%◌, ◌^◌, ◌≤◌, ◌<◌, ◌≡◌, ◌≢◌, true, arith, ◌==◌, Bool-cases, inl, inr, ◌∙◌,
}
use cs_261_basics_of_compute.Cache.Defs.{Cache, cache_read}
use cs_261_basics_of_compute.Cache.Direct.{
  Direct, has, has_here, has_before, read_hit, read_miss, cache_read-access_count,
  cache_read-Direct,
}
use cs_261_basics_of_compute.Cache.Sums.{Running, read_at, add_long, add_at, sum_a}
use cs_261_basics_of_compute.Mask.Loop.{for_loop, for_loop-carries}

module _ (mem : ℕ → ℕ) (a : ℕ) (aligned : a % 64 ≡ 0) (below : a + 8 * 4096 ≤ 2 ^ 31) where
  -- After `k` reads from the start of the array on.
  pub record Read (k : ℕ) (c : Cache) : Type 0 where
    pub direct : Direct mem c
    pub accesses : c.access_count ≡ k
    pub misses : c.miss_count ≡ (k + 7) / 8
    pub behind : (block : ℕ) → has c block ≡ true → block < a / 64 + (k + 7) / 8
    pub current : k % 8 ≢ 0 → has c (a / 64 + k / 8) ≡ true

  module _ (k : ℕ) (c : Cache) (few : k < 4096) (r : Read k c) where
    abbrev x : ℕ
    x = a + 8 * k

    place : x / 64 ≡ a / 64 + k / 8
    place = omega (arith, aligned)

    small : x < 2 ^ 31
    small = omega (arith, below, few)

    -- The first `long` of a block is a miss, and the others are hits.
    read_misses : (cache_read mem c x).1.miss_count ≡ (k + 1 + 7) / 8
    read_misses = elim (Bool-cases (has c (x / 64))) [
      | inl there ↦
          let late : x / 64 < a / 64 + (k + 7) / 8 = r.behind (x / 64) there in
          read_hit mem c r.direct x small there ∙ omega (arith, r.misses, late, place)
      | inr none ↦ elim (Bool-cases (k % 8 == 0)) [
        | inl first ↦
            let start : k % 8 ≡ 0 = ground (arith, first) in
            read_miss mem c r.direct x small none ∙ omega (arith, r.misses, start, few)
        | inr more ↦
            let there : has c (x / 64) ≡ true = rw place (r.current (ground (arith, more))) in
            absurd (ground (arith, none, there))
      ]
    ]

    cache_read-Read : Read (k + 1) (cache_read mem c x).1
    cache_read-Read = record {
      direct = cache_read-Direct mem c r.direct x small (omega (arith, aligned));
      accesses = cache_read-access_count mem c r.direct x small ∙ omega (arith, r.accesses, few);
      misses = read_misses;
      behind = λ block e. elim (has_before mem c r.direct x small block e) [
        | inl same ↦ omega (arith, same, place)
        | inr (_, old) ↦ let late = r.behind block old in omega (arith, late)
      ];
      current = λ ne.
          let same : a / 64 + (k + 1) / 8 ≡ x / 64 = omega (arith, ne, place) in
          rw same (has_here mem c r.direct x small);
    }

  row-Read :
      (i : ℕ) (s : Running)
      → i < 64
      → Read (i * 64) s.cache
      → Read ((i + 1) * 64) (for_loop 0 64 (λ j. add_at mem a (i * 64 + j)) s).cache
  unfolding add_at add_long read_at
  row-Read i s l r =
      let begin : i * 64 + 0 ≡ i * 64 = omega arith in
      let end : (i + 1) * 64 ≡ i * 64 + 64 = omega arith in
      rw end (
        for_loop-carries (λ j (t : Running). Read (i * 64 + j) t.cache) 64
          (λ j. add_at mem a (i * 64 + j)) s
          (λ j t l' r'.
            let e : i * 64 + (j + 1) ≡ i * 64 + j + 1 = omega arith in
            rw e (cache_read-Read (i * 64 + j) t.cache (omega arith) r'))
          (rw begin r))

  -- Row by row, one row after the other.
  pub sum_a-Read : (c : Cache) → Read 0 c → Read 4096 (sum_a mem a 64 64 c).cache
  unfolding sum_a
  sum_a-Read c start =
      for_loop-carries (λ i (s : Running). Read (i * 64) s.cache) 64
        (λ i. for_loop 0 64 (λ j. add_at mem a (i * 64 + j))) (record { sum = 0; cache = c })
        row-Read start
