-- ===== src/Mask/Agree.antt =====
-- The three filters compute one image and one checksum.
use cs_261_basics_of_compute.Prelude.{
  ℕ, ◌+◌, ◌%◌, ◌<◌, ◌≡◌, refl, true, false, ◌&&◌, arith, ◌==◌, if◌then◌else◌, ap, ◌∙◌, Bool-cases,
  inl, inr,
}
use cs_261_basics_of_compute.Mask.Long.{modulus, div64}
use cs_261_basics_of_compute.Mask.Defs.{
  Image, put, Arrays, Result, divide_cell, base_passes, base_mask, mask1_passes, mask1,
}
use cs_261_basics_of_compute.Mask.Sweep.{in_rect, Touches, by_rows-Touches, by_columns-Touches}
use cs_261_basics_of_compute.Mask.Pass.{
  at_pixel, weigh, begin, nine_passes, base_passes-nine_passes, mask1_passes-nine_passes,
}
use cs_261_basics_of_compute.Mask.Total.{sum_range, sum_range-cong, sum_range-swap, by_rows-total}
use cs_261_basics_of_compute.Mask.Kernel.{filtered, nine_passes-weighted_sum}

-- The sum of a pixel's value over the image.
abbrev pub image_total : (rows cols : ℕ) → Image → ℕ
image_total rows cols f = sum_range 0 rows (λ r. sum_range 0 cols (λ c. f r c))

-- What a filter promises: every pixel of the image is the weighted average, no cell outside of it
-- is written, and the checksum is the sum of the new pixels.
pub record IsFiltered (old new : Image) (rows cols : ℕ) (res : Result) : Type 0 where
  pub image :
      (r c : ℕ)
      → res.image r c ≡ (if in_rect 0 rows 0 cols r c then filtered old rows cols r c else new r c)
  pub check : res.check ≡ image_total rows cols (filtered old rows cols) % modulus

module _ (weight : Image) where
  abbrev divide : ℕ → ℕ → ℕ → ℕ
  divide r c v = div64 v (weight r c)

  divide_cell-Touches :
      (i j : ℕ) → Touches Result.image divide (divide_cell weight i j) (λ r c. (r == i) && (c == j))
  unfolding divide_cell put
  divide_cell-Touches i j s r c = ground arith

  divide_cell-check :
      (i j : ℕ) (s : Result)
      → s.check < modulus
      → (divide_cell weight i j s).check ≡ (s.check + divide i j (s.image i j)) % modulus
  unfolding divide_cell
  divide_cell-check i j s small = refl

module _ (old : Image) (rows cols r c : ℕ) where
  nine_passes_outside :
      (p0 : ℕ × ℕ) → in_rect 0 rows 0 cols r c ≡ false → nine_passes old rows cols r c p0 ≡ p0
  unfolding nine_passes begin weigh
  nine_passes_outside p0 out = ground arith

  -- The quotient of the two sums is the weighted average.
  pub passes-filtered :
      (p p0 : ℕ × ℕ)
      → p ≡ nine_passes old rows cols r c p0
      → in_rect 0 rows 0 cols r c ≡ true
      → div64 p.0 p.1 ≡ filtered old rows cols r c
  unfolding filtered
  passes-filtered p p0 e t =
      let h = nine_passes-weighted_sum old rows cols r c (ground arith) (ground arith) p0 in
      rw (e, h.0, h.1) refl

-- The last pass, on arrays that the nine passes have left.
module _ (old new weight0 : Image) (rows cols : ℕ) (s : Arrays)
    (left : (r c : ℕ) → at_pixel s r c ≡ nine_passes old rows cols r c (new r c, weight0 r c)) where
  divided :
      (r c : ℕ)
      → in_rect 0 rows 0 cols r c ≡ true
      → divide s.weight r c (s.new_image r c) ≡ filtered old rows cols r c
  unfolding at_pixel
  divided r c t =
      passes-filtered old rows cols r c (s.new_image r c, s.weight r c) (new r c, weight0 r c)
        (left r c) t

  final_image :
      (r c x : ℕ)
      → x ≡ (
          if in_rect 0 rows 0 cols r c
          then divide s.weight r c (s.new_image r c)
          else s.new_image r c)
      → x ≡ (if in_rect 0 rows 0 cols r c then filtered old rows cols r c else new r c)
  unfolding at_pixel
  final_image r c x e = elim (Bool-cases (in_rect 0 rows 0 cols r c)) [
    | inl t ↦ ground (arith, divided r c t)
    | inr f ↦ ground (arith, ap (λ p. p.0) (left r c ∙ nine_passes_outside old rows cols r c _ f))
  ]

-- The checksum, once the rows or the columns have been gone through.
pub totals_agree :
    (old : Image) (rows cols : ℕ) (f : ℕ → ℕ → ℕ)
    → ((r c : ℕ) → in_rect 0 rows 0 cols r c ≡ true → f r c ≡ filtered old rows cols r c)
    → image_total rows cols f ≡ image_total rows cols (filtered old rows cols)
totals_agree old rows cols f h =
    sum_range-cong 0 rows _ _ (λ r p q. sum_range-cong 0 cols _ _ (λ c p' q'. h r c (ground arith)))

module _ (old new : Image) (rows cols : ℕ) where
  -- The reference filter: every pixel of the new image is the weighted average of its neighbourhood in
  -- the old one, no other cell changes, and the checksum is the sum of the new pixels.
  pub base_mask-IsFiltered : IsFiltered old new rows cols (base_mask old new rows cols)
  unfolding base_mask
  base_mask-IsFiltered =
      let s0 : Arrays = record { new_image = new; weight = λ r c. 0 } in
      let s = base_passes old rows cols s0 in
      let left : (r c : ℕ) → at_pixel s r c ≡ nine_passes old rows cols r c (new r c, 0) =
        unfold at_pixel in base_passes-nine_passes old rows cols s0 in
      record {
        image = λ r c.
            final_image old new (λ _ _. 0) rows cols s left r c _
              (by_columns-Touches Result.image (divide s.weight) (divide_cell s.weight)
                (λ i j. divide_cell-Touches s.weight j i) 0 rows 0 cols _ r c);
        check =
            by_rows-total (λ t i j. t.image j i) (λ i j. divide s.weight j i)
              (λ i j. divide s.weight j i) Result.check (λ i j. divide_cell s.weight j i)
              (λ i j t r c. ground (arith, divide_cell-Touches s.weight j i t c r))
              (λ i j. divide_cell-check s.weight j i) (λ i j. s.new_image j i) cols rows
              (record { image = s.new_image; check = 0 }) refl (λ r c. refl)
            ∙ ap (λ x. x % modulus)
                (sum_range-swap 0 cols 0 rows (λ i j. divide s.weight j i (s.new_image j i))
                  ∙ totals_agree old rows cols (λ r c. divide s.weight r c (s.new_image r c))
                      (divided old new (λ _ _. 0) rows cols s left));
      }

  pub mask1-IsFiltered :
      (malloc_weight : Image) → IsFiltered old new rows cols (mask1 old new malloc_weight rows cols)
  unfolding mask1
  mask1-IsFiltered malloc_weight =
      let s0 : Arrays = record { new_image = new; weight = malloc_weight } in
      let s = mask1_passes old rows cols s0 in
      let left : (r c : ℕ)
          → at_pixel s r c ≡ nine_passes old rows cols r c (new r c, malloc_weight r c) =
        unfold at_pixel in mask1_passes-nine_passes old rows cols s0 in
      record {
        image = λ r c. final_image old new malloc_weight rows cols s left r c _ (
            by_rows-Touches Result.image (divide s.weight) (divide_cell s.weight)
              (divide_cell-Touches s.weight) 0 rows 0 cols _ r c);
        check =
            by_rows-total Result.image (divide s.weight) (divide s.weight) Result.check
              (divide_cell s.weight) (divide_cell-Touches s.weight) (divide_cell-check s.weight)
              s.new_image rows cols (record { image = s.new_image; check = 0 }) refl (λ r c. refl)
            ∙ ap (λ x. x % modulus)
                (totals_agree old rows cols (λ r c. divide s.weight r c (s.new_image r c))
                  (divided old new malloc_weight rows cols s left));
      }
