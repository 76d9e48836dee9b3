-- ===== src/Cache/Totals.antt =====
-- What the sums of lab6/cache-test.c come to when the cache holds copies of memory.
use native.Mathlib.Nat.{mul-le-mul_right}
use cs_261_basics_of_compute.Prelude.{
  ℕ, zero, suc, ◌+◌, ◌*◌, ◌/◌, ◌%◌, ◌^◌, ◌≤◌, ◌<◌, ◌≡◌, refl, sym, ap, arith, ◌∙◌,
}
use cs_261_basics_of_compute.Cache.Defs.{Cache, long_at}
use cs_261_basics_of_compute.Cache.Mirror.{Mirrors}
use cs_261_basics_of_compute.Cache.Sums.{
  Running, add_at, add_four, sum_a, sum_b, sum_c, Good, Adds, nest-Adds, add_at-Adds, add_four-Adds,
}
use cs_261_basics_of_compute.Mask.Total.{sum_range, sum_range-add, sum_range-cong, sum_range-swap}

-- Two by two.
sum_range_pairs :
    (n lo : ℕ) (f : ℕ → ℕ)
    → sum_range (2 * lo) (2 * n) f ≡ sum_range lo n (λ k. f (2 * k) + f (2 * k + 1))
unfolding sum_range
sum_range_pairs zero lo f = refl
sum_range_pairs (suc n) lo f =
    let twice : 2 * suc n ≡ suc (suc (2 * n)) = omega arith in
    let from : 2 * lo + 1 + 1 ≡ 2 * (lo + 1) = omega arith in
    rw (twice, from, sum_range_pairs n (lo + 1) f) (omega arith)

-- A block of two by two.
abbrev block : (ℕ → ℕ → ℕ) → ℕ → ℕ → ℕ
block e i j =
    e (2 * i) (2 * j) + e (2 * i + 1) (2 * j) + e (2 * i) (2 * j + 1) + e (2 * i + 1) (2 * j + 1)

-- Two rows of blocks.
rows-block :
    (q i : ℕ) (e : ℕ → ℕ → ℕ)
    → sum_range 0 q (block e i)
      ≡ sum_range 0 (2 * q) (e (2 * i)) + sum_range 0 (2 * q) (e (2 * i + 1))
rows-block q i e = omega (
  arith,
  sum_range_pairs q 0 (e (2 * i)),
  sum_range_pairs q 0 (e (2 * i + 1)),
  sum_range-add 0 q (λ j. e (2 * i) (2 * j) + e (2 * i) (2 * j + 1))
      (λ j. e (2 * i + 1) (2 * j) + e (2 * i + 1) (2 * j + 1)),
  sum_range-cong 0 q (block e i)
      (λ j.
        e (2 * i) (2 * j)
        + e (2 * i) (2 * j + 1)
        + (e (2 * i + 1) (2 * j) + e (2 * i + 1) (2 * j + 1)))
      (λ j l l'. omega arith),
)

-- The sum of a matrix of even size is that of its blocks of two by two, column by column.
blocks-total :
    (p q : ℕ) (e : ℕ → ℕ → ℕ)
    → sum_range 0 q (λ j. sum_range 0 p (λ i. block e i j))
      ≡ sum_range 0 (2 * p) (λ i. sum_range 0 (2 * q) (e i))
blocks-total p q e =
    sym (sum_range-swap 0 p 0 q (block e))
    ∙ sum_range-cong 0 p _ _ (λ i l l'. rows-block q i e)
    ∙ sym (sum_range_pairs p 0 (λ i. sum_range 0 (2 * q) (e i)))

module _ (mem : ℕ → ℕ) (a b s : ℕ) (wide : 3 ≤ b) (aligned : a % 8 ≡ 0) where
  -- The element of a row and a column.
  abbrev pub element : (cols i j : ℕ) → ℕ
  element cols i j = long_at mem (a + 8 * (i * cols + j))

  abbrev pub total : (rows cols : ℕ) → ℕ
  total rows cols = sum_range 0 rows (λ i. sum_range 0 cols (element cols i))

  from_zero :
      (m n : ℕ) (c : Cache) {y : Running}
      → Adds mem a b s wide aligned m n (record { sum = 0; cache = c }) y
      → y.sum ≡ n % m
  from_zero m n c h = h.sums ∙ ap (λ z. z % m) (omega arith)

  module _ (rows cols : ℕ) (small : a + 8 * (rows * cols) ≤ 2 ^ 31) (c : Cache)
      (w : Mirrors mem b s c) where
    inside : (i j : ℕ) → i < rows → j < cols → a + 8 * (i * cols + j) < 2 ^ 31
    inside i j l l' =
        let room = mul-le-mul_right {m = suc i} {n = rows} cols l in omega (arith, room)

    start-Good : (m : ℕ) → 0 < m → Good mem a b s wide aligned m (record { sum = 0; cache = c })
    start-Good m positive = record { mirrors = w; fits = positive }

    sum_a-total : (sum_a mem a rows cols c).sum ≡ total rows cols % 2 ^ 64
    unfolding sum_a
    sum_a-total = from_zero (2 ^ 64) (total rows cols) c (
        nest-Adds mem a b s wide aligned (2 ^ 64) (omega arith) rows cols
          (λ i j. add_at mem a (i * cols + j)) (element cols) _
          (λ i j y l l'. add_at-Adds mem a b s wide aligned (i * cols + j) y (inside i j l l'))
          (start-Good (2 ^ 64) (omega arith)))

    sum_b-total : (sum_b mem a rows cols c).sum ≡ total rows cols % 2 ^ 64
    unfolding sum_b
    sum_b-total =
        from_zero (2 ^ 64) (sum_range 0 cols (λ j. sum_range 0 rows (λ i. element cols i j))) c (
          nest-Adds mem a b s wide aligned (2 ^ 64) (omega arith) cols rows
            (λ j i. add_at mem a (i * cols + j)) (λ j i. element cols i j) _
            (λ j i y l' l. add_at-Adds mem a b s wide aligned (i * cols + j) y (inside i j l l'))
            (start-Good (2 ^ 64) (omega arith)))
        ∙ ap (λ z. z % 2 ^ 64) (sym (sum_range-swap 0 rows 0 cols (element cols)))

    sum_c-total :
        (p q : ℕ)
        → rows ≡ 2 * p
        → cols ≡ 2 * q
        → (sum_c mem a rows cols c).sum ≡ total rows cols % 2 ^ 32
    unfolding sum_c
    sum_c-total p q even even' =
        let half : (rows + 1) / 2 ≡ p = omega arith in
        let half' : (cols + 1) / 2 ≡ q = omega arith in
        let whole = blocks-total p q (element cols) in
        rw (half, half')
          (from_zero (2 ^ 32) (sum_range 0 q (λ j. sum_range 0 p (λ i. block (element cols) i j))) c
              (nest-Adds mem a b s wide aligned (2 ^ 32) (omega arith) q p
                (λ j i. add_four mem a cols (2 * i) (2 * j)) (λ j i. block (element cols) i j) _
                (λ j i y l' l.
                  let last = inside (2 * i + 1) (2 * j + 1) (omega arith) (omega arith) in
                  add_four-Adds mem a b s wide aligned cols (2 * i) (2 * j) y (omega (arith, last)))
                (start-Good (2 ^ 32) (omega arith)))
            ∙ ap (λ z. z % 2 ^ 32) (rw (sym even, sym even') at whole))

    -- Through a cache of copies of memory, with blocks of at least 8 bytes, for an array with an
    -- even number of rows and columns that is aligned to 8 bytes and ends by the address 2^31,
    -- `sumA` and `sumB` come to the sum of the array in the 64 bits of a `long`, and `sumC` to its
    -- low 32 bits.
    pub sums-total :
        (p q : ℕ)
        → rows ≡ 2 * p
        → cols ≡ 2 * q
        → ((sum_a mem a rows cols c).sum ≡ total rows cols % 2 ^ 64)
          × ((sum_b mem a rows cols c).sum ≡ total rows cols % 2 ^ 64)
          × ((sum_c mem a rows cols c).sum ≡ total rows cols % 2 ^ 32)
    sums-total p q even even' = (sum_a-total, sum_b-total, sum_c-total p q even even')
