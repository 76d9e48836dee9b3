-- ===== src/Cache/Sums.antt =====
-- The three sums of lab6/cache-test.c, which read an array of `long` through the cache. `sum` is kept as
-- the bits of the variable, 64 for a `long` and 32 for an `int`. The four reads of `sumC` are made from
-- left to right. What `sumC` returns is kept as the 32 bits of its `int`, without the copies of the sign
-- that `long` adds.
use native.Mathlib.Nat.{mod-lt, mod-eq_of_lt, mod-add-mod, mod-add-div', pow-suc, mul-le-mul_right}
use cs_261_basics_of_compute.Prelude.{
  ℕ, zero, suc, ◌+◌, ◌-◌, ◌*◌, ◌/◌, ◌%◌, ◌^◌, ◌≤◌, ◌<◌, ◌≡◌, sym, ap, arith, ◌∙◌, ◌==◌,
  if◌then◌else◌,
}
use cs_261_basics_of_compute.Cache.Defs.{Cache, cache_read, long_at}
use cs_261_basics_of_compute.Cache.Mirror.{Mirrors, two_pow_pos, cache_read-Mirrors}
use cs_261_basics_of_compute.Mask.Loop.{rounds, for_loop}
use cs_261_basics_of_compute.Mask.Total.{sum_range}

abbrev pub max_size : ℕ
max_size = 1024

-- `a[i * MAX_SIZE + j] = (i + 1) * 0x100 + (j + 1)`
unfoldable pub fill_cell : (i j : ℕ) → (ℕ → ℕ) → ℕ → ℕ
fill_cell i j a k = if k == i * max_size + j then (i + 1) * 256 + (j + 1) else a k

unfoldable pub fill_array : (ℕ → ℕ) → ℕ → ℕ
fill_array a = for_loop 0 max_size (λ i. for_loop 0 max_size (fill_cell i)) a

-- The variable `sum` and the cache.
pub record Running : Type 0 where
  pub sum : ℕ
  pub cache : Cache

unfoldable pub add_long : (value : ℕ) → Running → Cache → Running
add_long value s c = record { sum = (s.sum + value) % 2 ^ 64; cache = c }

module _ (mem : ℕ → ℕ) (a : ℕ) where
  -- `cache_read(cache, &a[k])`
  unfoldable pub read_at : Cache → (k : ℕ) → ℕ × Cache
  read_at c k = cache_read mem c (a + 8 * k)

  unfoldable pub add_at : (k : ℕ) → Running → Running
  add_at k s = let (value, c) = read_at s.cache k in add_long value s c

  unfoldable pub sum_a : (rows cols : ℕ) → Cache → Running
  sum_a rows cols c =
      for_loop 0 rows (λ i. for_loop 0 cols (λ j. add_at (i * cols + j)))
        (record { sum = 0; cache = c })

  unfoldable pub sum_b : (rows cols : ℕ) → Cache → Running
  sum_b rows cols c =
      for_loop 0 cols (λ j. for_loop 0 rows (λ i. add_at (i * cols + j)))
        (record { sum = 0; cache = c })

  unfoldable pub add_four : (cols i j : ℕ) → Running → Running
  add_four cols i j s =
      let (v, c) = read_at s.cache (i * cols + j) in
      let (v2, c2) = read_at c ((i + 1) * cols + j) in
      let (v3, c3) = read_at c2 (i * cols + j + 1) in
      let (v4, c4) = read_at c3 ((i + 1) * cols + j + 1) in
      record { sum = (s.sum + v + v2 + v3 + v4) % 2 ^ 32; cache = c4 }

  -- Steps of two: the round `k` is the one at 2 * k.
  unfoldable pub sum_c : (rows cols : ℕ) → Cache → Running
  sum_c rows cols c =
      for_loop 0 ((cols + 1) / 2)
        (λ j. for_loop 0 ((rows + 1) / 2) (λ i. add_four cols (2 * i) (2 * j)))
        (record { sum = 0; cache = c })

  module _ (b s : ℕ) (wide : 3 ≤ b) (aligned : a % 8 ≡ 0) where
    long_within : (k : ℕ) → (a + 8 * k) % 2 ^ b + 8 ≤ 2 ^ b
    long_within k =
        let q = 2 ^ (b - 3) in
        let parts = mod-add-div' (a + 8 * k) (2 ^ b) in
        let exponent : b ≡ suc (suc (suc (b - 3))) = omega arith in
        let width : 2 ^ b ≡ 8 * q =
          ap (λ e. 2 ^ e) exponent
          ∙ omega
              (arith, pow-suc 2 (suc (suc (b - 3))), pow-suc 2 (suc (b - 3)), pow-suc 2 (b - 3)) in
        let quotient = (a + 8 * k) / (8 * q) in
        let parts' : (a + 8 * k) % (8 * q) + 8 * (quotient * q) ≡ a + 8 * k =
          omega (arith, rw width at parts) in
        let positive : 0 < 8 * q = omega (arith, two_pow_pos (b - 3)) in
        rw width (omega (arith, parts', mod-lt (a + 8 * k) positive, aligned))

    pub read_at-Mirrors :
        (c : Cache) (k : ℕ)
        → Mirrors mem b s c
        → a + 8 * k < 2 ^ 31
        → ((read_at c k).0 ≡ long_at mem (a + 8 * k)) × Mirrors mem b s (read_at c k).1
    unfolding read_at
    read_at-Mirrors c k w small = cache_read-Mirrors mem b s c w (a + 8 * k) small (long_within k)

    -- A mirroring cache, and a sum of at most the bits that it has.
    pub record Good (m : ℕ) (x : Running) : Type 0 where
      pub mirrors : Mirrors mem b s x.cache
      pub fits : x.sum < m

    -- From one to the other, `n` is added.
    pub record Adds (m n : ℕ) (x y : Running) : Type 0 where
      pub good : Good m y
      pub sums : y.sum ≡ (x.sum + n) % m

    module _ (m : ℕ) (positive : 0 < m) where
      rounds-Adds :
          (n lo : ℕ) (body : ℕ → Running → Running) (f : ℕ → ℕ) (x : Running)
          → ((k : ℕ) (y : Running) → k < lo + n → Good m y → Adds m (f k) y (body k y))
          → Good m x
          → Adds m (sum_range lo n f) x (rounds lo n body x)
      unfolding rounds sum_range
      rounds-Adds zero lo body f x h g = record {
        good = g;
        sums = sym (mod-eq_of_lt (omega (arith, g.fits))) ∙ ap (λ z. z % m) (omega arith);
      }
      rounds-Adds (suc n) lo body f x h g =
          let head = h lo x (omega arith) g in
          let tail =
            rounds-Adds n (lo + 1) body f (body lo x) (λ k y l. h k y (omega arith)) head.good in
          record {
            good = tail.good;
            sums =
                tail.sums
                ∙ ap (λ z. (z + sum_range (lo + 1) n f) % m) head.sums
                ∙ mod-add-mod (x.sum + f lo) m _
                ∙ ap (λ z. z % m) (omega arith);
          }

      for_loop-Adds :
          (n : ℕ) (body : ℕ → Running → Running) (f : ℕ → ℕ) (x : Running)
          → ((k : ℕ) (y : Running) → k < n → Good m y → Adds m (f k) y (body k y))
          → Good m x
          → Adds m (sum_range 0 n f) x (for_loop 0 n body x)
      unfolding for_loop
      for_loop-Adds n body f x h g =
          let whole : n - 0 ≡ n = omega arith in
          rw whole (rounds-Adds n 0 body f x (λ k y l. h k y (omega arith)) g)

      -- Reading every element of an array, in an order of two nested loops.
      pub nest-Adds :
          (n n' : ℕ) (body : ℕ → ℕ → Running → Running) (f : ℕ → ℕ → ℕ) (x : Running)
          → ((i j : ℕ) (y : Running) → i < n → j < n' → Good m y → Adds m (f i j) y (body i j y))
          → Good m x
          → Adds m
              (sum_range 0 n (λ i. sum_range 0 n' (f i)))
              x
              (for_loop 0 n (λ i. for_loop 0 n' (body i)) x)
      nest-Adds n n' body f x h g =
          for_loop-Adds n _ _ x
            (λ i y l g'. for_loop-Adds n' (body i) (f i) y (λ j z l'. h i j z l l') g') g

    pub add_at-Adds :
        (k : ℕ) (x : Running)
        → a + 8 * k < 2 ^ 31
        → Good (2 ^ 64) x
        → Adds (2 ^ 64) (long_at mem (a + 8 * k)) x (add_at k x)
    unfolding add_at add_long
    add_at-Adds k x small g =
        let (value, w) = read_at-Mirrors x.cache k g.mirrors small in
        record {
          good = record { mirrors = w; fits = omega arith };
          sums = ap (λ z. (x.sum + z) % 2 ^ 64) value;
        }

    pub add_four-Adds :
        (cols i j : ℕ) (x : Running)
        → a + 8 * ((i + 1) * cols + j + 1) < 2 ^ 31
        → Good (2 ^ 32) x
        → Adds
            (2 ^ 32)
            (long_at mem (a + 8 * (i * cols + j))
              + long_at mem (a + 8 * ((i + 1) * cols + j))
              + long_at mem (a + 8 * (i * cols + (j + 1)))
              + long_at mem (a + 8 * ((i + 1) * cols + (j + 1))))
            x
            (add_four cols i j x)
    unfolding add_four
    add_four-Adds cols i j x small g =
        let below : i * cols ≤ (i + 1) * cols =
          mul-le-mul_right {m = i} {n = i + 1} cols (omega arith) in
        let next : (m : ℕ)
            → long_at mem (a + 8 * (m + j + 1)) ≡ long_at mem (a + 8 * (m + (j + 1))) =
          λ m. ap (λ k. long_at mem (a + 8 * k)) (omega arith) in
        let (e1, w1) = read_at-Mirrors x.cache (i * cols + j) g.mirrors (omega (arith, below)) in
        let (e2, w2) = read_at-Mirrors _ ((i + 1) * cols + j) w1 (omega arith) in
        let (e3, w3) = read_at-Mirrors _ (i * cols + j + 1) w2 (omega (arith, below)) in
        let (e4, w4) = read_at-Mirrors _ ((i + 1) * cols + j + 1) w3 (omega arith) in
        record {
          good = record { mirrors = w4; fits = omega arith };
          sums =
              rw (e1, e2, e3 ∙ next (i * cols), e4 ∙ next ((i + 1) * cols))
                (ap (λ z. z % 2 ^ 32) (omega arith));
        }
