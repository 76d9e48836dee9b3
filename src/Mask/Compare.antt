-- ===== src/Mask/Compare.antt =====
-- `copy` and `countDifferentPixels` of lab6/timemask.c. An image has at most 2^22 pixels, so the count
-- stays in an `int`. What is printed for each difference is not modelled.
use cs_261_basics_of_compute.Prelude.{
  ℕ, zero, suc, ◌+◌, ◌-◌, ◌≡◌, ◌&&◌, arith, ◌==◌, if◌then◌else◌, ◌∙◌,
}
use cs_261_basics_of_compute.Mask.Loop.{rounds, for_loop}
use cs_261_basics_of_compute.Mask.Defs.{Image, put, base_mask, mask}
use cs_261_basics_of_compute.Mask.Sweep.{in_rect, Touches, by_rows-Touches}
use cs_261_basics_of_compute.Mask.Total.{sum_range, sum_range-zero}
use cs_261_basics_of_compute.Mask.Agree.{image_total}
use cs_261_basics_of_compute.Mask.Equal.{mask-base_mask}

unfoldable pub copy_cell : Image → (i j : ℕ) → Image → Image
copy_cell src i j dst = put dst i j (src i j)

unfoldable pub copy : (src dst : Image) (rows cols : ℕ) → Image
copy src dst rows cols = for_loop 0 rows (λ i. for_loop 0 cols (λ j. copy_cell src i j)) dst

-- `if (A[i][j] != B[i][j]) ret_val++;`
unfoldable pub count_cell : (a b : Image) (i j ret_val : ℕ) → ℕ
count_cell a b i j ret_val = if a i j == b i j then ret_val else ret_val + 1

unfoldable pub count_different_pixels : (a b : Image) (rows cols : ℕ) → ℕ
count_different_pixels a b rows cols =
    for_loop 0 rows (λ i. for_loop 0 cols (λ j. count_cell a b i j)) 0

copy_cell-Touches :
    (src : Image) (i j : ℕ)
    → Touches
        (λ (s : Image). s)
        (λ r c v. src r c)
        (copy_cell src i j)
        (λ r c. (r == i) && (c == j))
unfolding copy_cell put
copy_cell-Touches src i j s r c = ground arith

-- `copy` copies the pixels of the image, and writes nothing else.
pub copy_lem :
    (src dst : Image) (rows cols r c : ℕ)
    → copy src dst rows cols r c ≡ (if in_rect 0 rows 0 cols r c then src r c else dst r c)
unfolding copy
copy_lem src dst rows cols r c =
    by_rows-Touches (λ (s : Image). s) (λ r' c' v. src r' c') (copy_cell src)
      (copy_cell-Touches src) 0 rows 0 cols dst r c

rounds-sum :
    (n lo : ℕ) (body : ℕ → ℕ → ℕ) (f : ℕ → ℕ) (s : ℕ)
    → ((k t : ℕ) → body k t ≡ t + f k)
    → rounds lo n body s ≡ s + sum_range lo n f
unfolding rounds sum_range
rounds-sum zero lo body f s h = omega arith
rounds-sum (suc n) lo body f s h = omega (arith, h lo s, rounds-sum n (lo + 1) body f (body lo s) h)

for_loop-sum :
    (hi : ℕ) (body : ℕ → ℕ → ℕ) (f : ℕ → ℕ) (s : ℕ)
    → ((k t : ℕ) → body k t ≡ t + f k)
    → for_loop 0 hi body s ≡ s + sum_range 0 hi f
unfolding for_loop
for_loop-sum hi body f s h =
    let whole : hi - 0 ≡ hi = omega arith in rw whole (rounds-sum hi 0 body f s h)

-- One for a pixel at which the images differ.
abbrev pub difference : (a b : Image) (r c : ℕ) → ℕ
difference a b r c = if a r c == b r c then 0 else 1

-- `countDifferentPixels` returns the number of pixels at which the images differ.
pub count_different_pixels-image_total :
    (a b : Image) (rows cols : ℕ)
    → count_different_pixels a b rows cols ≡ image_total rows cols (difference a b)
unfolding count_different_pixels count_cell
count_different_pixels-image_total a b rows cols =
    for_loop-sum rows _ (λ r. sum_range 0 cols (λ c. difference a b r c)) 0
      (λ r t. for_loop-sum cols _ (λ c. difference a b r c) t (λ c u. ground arith))
    ∙ omega arith

none_differ : (a : Image) (rows cols : ℕ) → count_different_pixels a a rows cols ≡ 0
unfolding count_different_pixels count_cell
none_differ a rows cols =
    for_loop-sum rows _ (λ r. 0) 0
      (λ r t.
        for_loop-sum cols _ (λ c. 0) t (λ c u. ground arith) ∙ omega (arith, sum_range-zero 0 cols))
    ∙ omega (arith, sum_range-zero 0 rows)

-- The comparison of lab6/timemask.c finds no difference between the filter that is built and the
-- reference filter.
pub count_different_pixels-mask :
    (old new : Image) (rows cols : ℕ)
    → count_different_pixels
        (mask old new rows cols).image
        (base_mask old new rows cols).image
        rows
        cols
      ≡ 0
count_different_pixels-mask old new rows cols =
    rw (mask-base_mask old new rows cols)
      (none_differ (base_mask old new rows cols).image rows cols)
