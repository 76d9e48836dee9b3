-- ===== src/Cache/Columns.antt =====
-- `sumB` and `sumC` of lab6/cache-test.c: sums by columns, where the rows `i` and `i + 32` share their
-- sets.
use cs_261_basics_of_compute.Prelude.{
  ℕ, ◌+◌, ◌*◌, ◌/◌, ◌%◌, ◌^◌, ◌≤◌, ◌<◌, ◌≡◌, ◌≢◌, ◌⊎◌, arith, ◌==◌, Bool-cases, inl, inr,
}
use cs_261_basics_of_compute.Cache.Defs.{Cache}
use cs_261_basics_of_compute.Cache.Sweep.{Sweep, column_miss, Sweep-turn, four_reads}
use cs_261_basics_of_compute.Cache.Sums.{Running, read_at, add_long, add_at, add_four, sum_b, sum_c}
use cs_261_basics_of_compute.Mask.Loop.{for_loop, for_loop-carries}

module _ (mem : ℕ → ℕ) (a : ℕ) (aligned : a % 64 ≡ 0) (below : a + 8 * 4096 ≤ 2 ^ 31) where
  next_group : (j : ℕ) → ((j + 1) / 8 ≡ j / 8) ⊎ ((j + 1) / 8 ≡ j / 8 + 1)
  next_group j = elim (Bool-cases (j % 8 == 7)) [
    | inl last ↦ let e : j % 8 ≡ 7 = ground (arith, last) in inr (omega (arith, e))
    | inr more ↦ let e : j % 8 ≢ 7 = ground (arith, more) in inl (omega (arith, e))
  ]

  element-Sweep :
      (j i : ℕ) (s : Running)
      → j < 64
      → i < 64
      → Sweep mem a aligned below (j / 8) i (64 * j + i) (64 * j + i) s.cache
      → Sweep mem a aligned below
          (j / 8)
          (i + 1)
          (64 * j + (i + 1))
          (64 * j + (i + 1))
          (add_at mem a (i * 64 + j) s).cache
  unfolding add_at add_long read_at
  element-Sweep j i s l l' w =
      let e : 64 * j + (i + 1) ≡ 64 * j + i + 1 = omega arith in
      rw e (
        column_miss mem a aligned below s.cache (j / 8) i (64 * j + i) (64 * j + i)
          (a + 8 * (i * 64 + j)) (omega arith) (omega arith) (omega arith) (omega arith)
          (omega arith) w (omega arith))

  column-Sweep :
      (j : ℕ) (s : Running)
      → j < 64
      → Sweep mem a aligned below (j / 8) 0 (64 * j) (64 * j) s.cache
      → Sweep mem a aligned below
          ((j + 1) / 8)
          0
          (64 * (j + 1))
          (64 * (j + 1))
          (for_loop 0 64 (λ i. add_at mem a (i * 64 + j)) s).cache
  column-Sweep j s l w =
      let begin : 64 * j + 0 ≡ 64 * j = omega arith in
      let end : 64 * (j + 1) ≡ 64 * j + 64 = omega arith in
      rw end (
        Sweep-turn mem a aligned below _ (j / 8) ((j + 1) / 8) (64 * j + 64) (64 * j + 64)
          (next_group j)
          (for_loop-carries
            (λ i (t : Running).
              Sweep mem a aligned below (j / 8) i (64 * j + i) (64 * j + i) t.cache)
            64 (λ i. add_at mem a (i * 64 + j)) s (λ i t l' w'. element-Sweep j i t l l' w')
            (rw begin w)))

  -- Every read of `sumB` is a miss.
  pub sum_b-Sweep :
      (c : Cache)
      → Sweep mem a aligned below 0 0 0 0 c
      → Sweep mem a aligned below 8 0 4096 4096 (sum_b mem a 64 64 c).cache
  unfolding sum_b
  sum_b-Sweep c start =
      for_loop-carries
        (λ j (s : Running). Sweep mem a aligned below (j / 8) 0 (64 * j) (64 * j) s.cache) 64
        (λ j. for_loop 0 64 (λ i. add_at mem a (i * 64 + j))) (record { sum = 0; cache = c })
        column-Sweep start

  -- A round of `sumC`.
  four-Sweep :
      (j i n m : ℕ) (s : Running)
      → j < 32
      → i < 32
      → n + 4 ≤ 4096
      → m + 4 ≤ 4096
      → Sweep mem a aligned below (2 * j / 8) (2 * i) n m s.cache
      → Sweep mem a aligned below
          (2 * j / 8)
          (2 * (i + 1))
          (n + 4)
          (m + 2)
          (add_four mem a 64 (2 * i) (2 * j) s).cache
  unfolding add_four read_at
  four-Sweep j i n m s l l' short few w =
      let e : 2 * (i + 1) ≡ 2 * i + 1 + 1 = omega arith in
      let e' : n + 4 ≡ n + 1 + 1 + 1 + 1 = omega arith in
      let e2 : m + 2 ≡ m + 1 + 1 = omega arith in
      rw (e, e', e2)
        (four_reads mem a aligned below s.cache (2 * j / 8) (2 * i) n m
          (a + 8 * (2 * i * 64 + 2 * j)) (a + 8 * ((2 * i + 1) * 64 + 2 * j))
          (a + 8 * (2 * i * 64 + 2 * j + 1)) (a + 8 * ((2 * i + 1) * 64 + 2 * j + 1)) (omega arith)
          short few (omega arith, omega arith) (omega arith, omega arith) (omega arith, omega arith)
          (omega arith, omega arith) (omega arith) (omega arith) (omega arith) (omega arith) w)

  next_pair : (j : ℕ) → (2 * (j + 1) / 8 ≡ 2 * j / 8) ⊎ (2 * (j + 1) / 8 ≡ 2 * j / 8 + 1)
  next_pair j = elim (Bool-cases (j % 4 == 3)) [
    | inl last ↦ let e : j % 4 ≡ 3 = ground (arith, last) in inr (omega (arith, e))
    | inr more ↦ let e : j % 4 ≢ 3 = ground (arith, more) in inl (omega (arith, e))
  ]

  columns-Sweep :
      (j : ℕ) (s : Running)
      → j < 32
      → Sweep mem a aligned below (2 * j / 8) 0 (128 * j) (64 * j) s.cache
      → Sweep mem a aligned below
          (2 * (j + 1) / 8)
          0
          (128 * (j + 1))
          (64 * (j + 1))
          (for_loop 0 32 (λ i. add_four mem a 64 (2 * i) (2 * j)) s).cache
  columns-Sweep j s l w =
      let begin : 128 * j + 0 ≡ 128 * j = omega arith in
      let begin' : 64 * j + 0 ≡ 64 * j = omega arith in
      let end : 128 * (j + 1) ≡ 128 * j + 128 = omega arith in
      let end' : 64 * (j + 1) ≡ 64 * j + 64 = omega arith in
      let after =
        for_loop-carries
          (λ i (t : Running).
            Sweep mem a aligned below (2 * j / 8) (2 * i) (128 * j + 4 * i) (64 * j + 2 * i)
              t.cache)
          32 (λ i. add_four mem a 64 (2 * i) (2 * j)) s
          (λ i t l' w'.
            let e : 128 * j + 4 * (i + 1) ≡ 128 * j + 4 * i + 4 = omega arith in
            let e' : 64 * j + 2 * (i + 1) ≡ 64 * j + 2 * i + 2 = omega arith in
            rw (e, e')
              (four-Sweep j i (128 * j + 4 * i) (64 * j + 2 * i) t l l' (omega arith) (omega arith)
                w'))
          (rw (begin, begin') w) in
      rw (end, end')
        (Sweep-turn mem a aligned below _ (2 * j / 8) (2 * (j + 1) / 8) (128 * j + 128)
          (64 * j + 64) (next_pair j) after)

  -- Half of the reads of `sumC` are misses.
  pub sum_c-Sweep :
      (c : Cache)
      → Sweep mem a aligned below 0 0 0 0 c
      → Sweep mem a aligned below 8 0 4096 2048 (sum_c mem a 64 64 c).cache
  unfolding sum_c
  sum_c-Sweep c start =
      for_loop-carries
        (λ j (s : Running). Sweep mem a aligned below (2 * j / 8) 0 (128 * j) (64 * j) s.cache) 32
        (λ j. for_loop 0 32 (λ i. add_four mem a 64 (2 * i) (2 * j)))
        (record { sum = 0; cache = c }) columns-Sweep start
