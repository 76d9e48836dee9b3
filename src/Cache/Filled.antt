-- ===== src/Cache/Filled.antt =====
-- What `fillArray` of lab6/cache-test.c leaves in memory, where the array has 2^20 elements.
use cs_261_basics_of_compute.Prelude.{
  ℕ, ◌+◌, ◌-◌, ◌*◌, ◌/◌, ◌%◌, ◌^◌, ◌<◌, ◌≡◌, refl, true, ◌&&◌, arith, ltb, leb, ◌==◌, if◌then◌else◌,
  ◌∙◌, ap, Bool-cases, inl, inr,
}
use cs_261_basics_of_compute.Cache.Defs.{long_at}
use cs_261_basics_of_compute.Cache.Sums.{fill_cell, fill_array}
use cs_261_basics_of_compute.Mask.Loop.{for_loop, for_loop-carries}
use cs_261_basics_of_compute.Mask.Total.{sum_range, sum_range-cong}

-- Memory with an array of `long` at an address: the lowest byte of each comes first.
unfoldable pub with_array : (test_array : ℕ) → (ℕ → ℕ) → (ℕ → ℕ) → ℕ → ℕ
with_array test_array array mem x =
    if leb test_array x && ltb x (test_array + 8 * 2 ^ 20)
    then array ((x - test_array) / 8) / 2 ^ (8 * ((x - test_array) % 8)) % 256
    else mem x

unfoldable pub filled : (test_array : ℕ) → (ℕ → ℕ) → ℕ → ℕ
filled test_array mem =
    with_array test_array (fill_array (λ k. long_at mem (test_array + 8 * k))) mem

-- The value of an element.
abbrev pub element_of : ℕ → ℕ
element_of k = (k / 1024 + 1) * 256 + (k % 1024 + 1)

-- The first `n` elements have been written.
abbrev Written : (ℕ → ℕ) → ℕ → (ℕ → ℕ) → Type 0
Written before n a = (k : ℕ) → a k ≡ (if ltb k n then element_of k else before k)

cell_Written :
    (before a : ℕ → ℕ) (i j : ℕ)
    → j < 1024
    → Written before (i * 1024 + j) a
    → Written before (i * 1024 + (j + 1)) (fill_cell i j a)
unfolding fill_cell
cell_Written before a i j l w k = elim (Bool-cases (k == i * 1024 + j)) [
  | inl here ↦
      let same : k ≡ i * 1024 + j = ground (arith, here) in
      let test : ltb k (i * 1024 + (j + 1)) ≡ true = ground (arith, same) in
      rw (here, test) (omega (arith, same, l))
  | inr there ↦ rw there (ground (arith, w k, there))
]

fill_array-Written : (before : ℕ → ℕ) → Written before (1024 * 1024) (fill_array before)
unfolding fill_array
fill_array-Written before =
    for_loop-carries (λ i (a : ℕ → ℕ). Written before (i * 1024) a) 1024
      (λ i. for_loop 0 1024 (fill_cell i)) before
      (λ i a l w.
        let end : (i + 1) * 1024 ≡ i * 1024 + 1024 = omega arith in
        let begin : i * 1024 + 0 ≡ i * 1024 = omega arith in
        rw end (
          for_loop-carries (λ j (b : ℕ → ℕ). Written before (i * 1024 + j) b) 1024 (fill_cell i) a
            (λ j b l' w'. cell_Written before b i j l' w') (rw begin w)))
      (λ k. ground arith)

module _ (a : ℕ) (array mem : ℕ → ℕ) (k : ℕ) (inside : k < 2 ^ 20) where
  byte_of : (o : ℕ) → o < 8 → with_array a array mem (a + 8 * k + o) ≡ array k / 2 ^ (8 * o) % 256
  unfolding with_array
  byte_of o l =
      let test : (leb a (a + 8 * k + o) && ltb (a + 8 * k + o) (a + 8 * 2 ^ 20)) ≡ true =
        ground arith in
      let at : (a + 8 * k + o - a) / 8 ≡ k = omega arith in
      let off : (a + 8 * k + o - a) % 8 ≡ o = omega arith in rw (test, at, off) refl

  long_of : array k < 2 ^ 24 → long_at (with_array a array mem) (a + 8 * k) ≡ array k
  unfolding long_at
  long_of small =
      let first : with_array a array mem (a + 8 * k) ≡ array k / 2 ^ (8 * 0) % 256 =
        ap (with_array a array mem) (omega arith) ∙ byte_of 0 (omega arith) in
      rw
        (
          first,
          byte_of 1 (omega arith),
          byte_of 2 (omega arith),
          byte_of 3 (omega arith),
          byte_of 4 (omega arith),
          byte_of 5 (omega arith),
          byte_of 6 (omega arith),
          byte_of 7 (omega arith),
        )
        (omega (arith, small))

-- The sum of the first 64 rows and columns, in the order in which the sums index them.
element_total : ℕ
element_total = sum_range 0 64 (λ i. sum_range 0 64 (λ j. element_of (i * 64 + j)))

element_total_lem : element_total ≡ 4720640
unfolding element_total sum_range
element_total_lem = refl

module _ (a : ℕ) (mem : ℕ → ℕ) where
  pub filled_element : (k : ℕ) → k < 4096 → long_at (filled a mem) (a + 8 * k) ≡ element_of k
  unfolding filled
  filled_element k l =
      let array = fill_array (λ n. long_at mem (a + 8 * n)) in
      let value : array k ≡ element_of k =
        ground (arith, fill_array-Written (λ n. long_at mem (a + 8 * n)) k) in
      long_of a array mem k (omega arith) (omega (arith, value)) ∙ value

  pub filled_total :
      sum_range 0 64 (λ i. sum_range 0 64 (λ j. long_at (filled a mem) (a + 8 * (i * 64 + j))))
      ≡ 4720640
  unfolding element_total
  filled_total =
      sum_range-cong 0 64 _ (λ i. sum_range 0 64 (λ j. element_of (i * 64 + j)))
        (λ i p l.
          sum_range-cong 0 64 _ (λ j. element_of (i * 64 + j))
            (λ j p' l'. filled_element (i * 64 + j) (omega arith)))
      ∙ element_total_lem
