-- ===== src/Mask/Alike.antt =====
-- Images of lab6/timemask.c that agree inside, and may differ in the rest of their arrays.
use cs_261_basics_of_compute.Prelude.{
  ℕ, zero, suc, ◌+◌, ◌-◌, ◌%◌, ◌≤◌, ◌<◌, ◌≡◌, refl, arith, ap, ◌∙◌, Bool-cases, inl, inr,
}
use cs_261_basics_of_compute.Mask.Long.{modulus, div64}
use cs_261_basics_of_compute.Mask.Defs.{Image}
use cs_261_basics_of_compute.Mask.Kernel.{inside, tap, weighted_sum, total_weight, filtered}
use cs_261_basics_of_compute.Mask.Total.{sum_range-cong, sum_range-zero}
use cs_261_basics_of_compute.Mask.Compare.{
  copy, copy_lem, count_different_pixels, count_different_pixels-image_total,
}
use cs_261_basics_of_compute.Mask.Pgm.{write_row, write_rows, write_image}

abbrev pub Alike : (rows cols : ℕ) → Image → Image → Type 0
Alike rows cols a b = (r c : ℕ) → r < rows → c < cols → a r c ≡ b r c

module _ (rows cols : ℕ) (a b : Image) (alike : Alike rows cols a b) where
  tap_cong : (r c k dr dc : ℕ) → tap a rows cols r c k dr dc ≡ tap b rows cols r c k dr dc
  tap_cong r c k dr dc = elim (Bool-cases (inside rows cols r c dr dc)) [
    | inl is ↦ rw (is, alike (r + dr - 1) (c + dc - 1) (ground arith) (ground arith)) refl
    | inr out ↦ rw out refl
  ]

  -- The filter only reads pixels of the image.
  pub filtered_cong : (r c : ℕ) → filtered a rows cols r c ≡ filtered b rows cols r c
  unfolding filtered weighted_sum
  filtered_cong r c =
      ap (λ s. div64 (s % modulus) (total_weight rows cols r c)) (omega (arith, tap_cong r c))

  -- So does the comparison, which finds no difference then.
  pub count_different_pixels-Alike : count_different_pixels a b rows cols ≡ 0
  count_different_pixels-Alike =
      count_different_pixels-image_total a b rows cols
      ∙ (sum_range-cong 0 rows _ (λ r. 0)
            (λ r p q.
              sum_range-cong 0 cols _ (λ c. 0)
                (λ c p' q'. ground (arith, alike r c (omega arith) (omega arith)))
              ∙ sum_range-zero 0 cols)
          ∙ sum_range-zero 0 rows)

  write_row_cong : (n i j : ℕ) → i < rows → j + n ≤ cols → write_row n i j a ≡ write_row n i j b
  unfolding write_row
  write_row_cong zero i j p q = refl
  write_row_cong (suc n) i j p q =
      rw (alike i j p (omega arith), write_row_cong n i (j + 1) p (omega arith)) refl

  write_rows_cong : (n i : ℕ) → i + n ≤ rows → write_rows n i cols a ≡ write_rows n i cols b
  unfolding write_rows
  write_rows_cong zero i p = refl
  write_rows_cong (suc n) i p =
      rw
        (
          write_row_cong cols i 0 (omega arith) (omega arith),
          write_rows_cong n (i + 1) (omega arith),
        )
        refl

  -- So does the writing of a file.
  pub write_image_cong : (white : ℕ) → write_image rows cols white a ≡ write_image rows cols white b
  unfolding write_image
  write_image_cong white = rw (write_rows_cong rows 0 (omega arith)) refl

pub copy-Alike : (rows cols : ℕ) (a b : Image) → Alike rows cols a (copy a b rows cols)
copy-Alike rows cols a b r c p q = ground (arith, copy_lem a b rows cols r c)
