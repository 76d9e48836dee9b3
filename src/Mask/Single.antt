-- ===== src/Mask/Single.antt =====
-- `mask2` of lab6/mask.c, which filters one pixel at a time.
use cs_261_basics_of_compute.Prelude.{
  ℕ, ◌+◌, ◌-◌, ◌%◌, ◌<◌, ◌≡◌, refl, false, ◌&&◌, arith, ◌==◌, if◌then◌else◌, ap, ◌∙◌, Bool-cases,
  inl, inr,
}
use cs_261_basics_of_compute.Mask.Long.{modulus, div64}
use cs_261_basics_of_compute.Mask.Defs.{Image, put, Pixel, add_if, mask2_cell, mask2_loop, mask2}
use cs_261_basics_of_compute.Mask.Sweep.{between, in_rect, Touches, by_rows-Touches}
use cs_261_basics_of_compute.Mask.Total.{by_rows-total}
use cs_261_basics_of_compute.Mask.Pixel.{
  Reached, nine_tests, before_division, before_division-Reached, mask2_cell_inside,
}
use cs_261_basics_of_compute.Mask.Reorder.{nine_tests-nine_passes}
use cs_261_basics_of_compute.Mask.Kernel.{filtered}
use cs_261_basics_of_compute.Mask.Agree.{IsFiltered, passes-filtered, totals_agree}

module _ (old : Image) (rows cols : ℕ) where
  abbrev settle : ℕ → ℕ → ℕ → ℕ
  settle r c v = if in_rect 0 rows 0 cols r c then filtered old rows cols r c else v

  abbrev addend : ℕ → ℕ → ℕ → ℕ
  addend r c v = if in_rect 0 rows 0 cols r c then filtered old rows cols r c else 0

  not_added : (k i j row col : ℕ) (s : Pixel) → add_if false old k i j row col s ≡ s
  unfolding add_if
  not_added k i j row col s = refl

  mask2_cell_outside :
      (i j : ℕ) (s : Pixel) → in_rect 0 rows 0 cols i j ≡ false → mask2_cell old rows cols i j s ≡ s
  unfolding mask2_cell
  mask2_cell_outside i j s out =
      let e1 : (between 1 rows i && between 1 cols j) ≡ false = ground arith in
      let e2 : (between 1 rows i && between 0 (cols - 1) j) ≡ false = ground arith in
      let e3 : (between 0 (rows - 1) i && between 1 cols j) ≡ false = ground arith in
      let e4 : (between 0 (rows - 1) i && between 0 (cols - 1) j) ≡ false = ground arith in
      let skip = λ (row col : ℕ) (t : Pixel). not_added 1 i j row col t in
      rw (out, e1, e2, e3, e4)
        (skip (i + 1) (j + 1) _
          ∙ skip (i + 1) (j - 1) _
          ∙ skip (i - 1) (j + 1) _
          ∙ skip (i - 1) (j - 1) _)

  module _ (i j : ℕ) (s : Pixel) (row_in : i < rows) (col_in : j < cols) where
    reached :
        Reached i j s
          (before_division old i j s rows cols row_in col_in)
          (nine_tests old rows cols i j)
    reached = before_division-Reached old i j s rows cols row_in col_in

    quotient :
        let t = before_division old i j s rows cols row_in col_in in
        div64 (t.image i j) t.weight ≡ filtered old rows cols i j
    quotient =
        rw (reached.value, reached.weight)
          (passes-filtered old rows cols i j (nine_tests old rows cols i j) (0, 0)
            (nine_tests-nine_passes old rows cols i j row_in col_in (0, 0)) (ground arith))

    settled :
        (r c : ℕ)
        → (mask2_cell old rows cols i j s).image r c
          ≡ (if (r == i) && (c == j) then filtered old rows cols i j else s.image r c)
    unfolding put
    settled r c =
        rw (mask2_cell_inside old i j s rows cols row_in col_in, quotient)
          (ground (arith, reached.others r c))

    added :
        (mask2_cell old rows cols i j s).check ≡ (s.check + filtered old rows cols i j) % modulus
    added = rw (mask2_cell_inside old i j s rows cols row_in col_in, quotient, reached.check) refl

  mask2_cell-Touches :
      (i j : ℕ)
      → Touches Pixel.image settle (mask2_cell old rows cols i j) (λ r c. (r == i) && (c == j))
  mask2_cell-Touches i j s r c = elim (Bool-cases (in_rect 0 rows 0 cols i j)) [
    | inl t ↦ ground (arith, settled i j s (ground arith) (ground arith) r c)
    | inr f ↦ rw (mask2_cell_outside i j s f) (ground arith)
  ]

  mask2_cell-check :
      (i j : ℕ) (s : Pixel)
      → s.check < modulus
      → (mask2_cell old rows cols i j s).check ≡ (s.check + addend i j (s.image i j)) % modulus
  mask2_cell-check i j s small = elim (Bool-cases (in_rect 0 rows 0 cols i j)) [
    | inl t ↦ rw (added i j s (ground arith) (ground arith), t) refl
    | inr f ↦ rw (mask2_cell_outside i j s f, f) (omega arith)
  ]

  pub mask2-IsFiltered : (new : Image) → IsFiltered old new rows cols (mask2 old new rows cols)
  unfolding mask2 mask2_loop
  mask2-IsFiltered new =
      let s0 : Pixel = record { image = new; check = 0; weight = 0 } in
      record {
        image = λ r c. ground (
          arith,
          by_rows-Touches Pixel.image settle (mask2_cell old rows cols) mask2_cell-Touches 0 rows 0
              cols s0 r c,
        );
        check =
            by_rows-total Pixel.image settle addend Pixel.check (mask2_cell old rows cols)
              mask2_cell-Touches mask2_cell-check new rows cols s0 refl (λ r c. refl)
            ∙ ap (λ x. x % modulus)
                (totals_agree old rows cols (λ r c. addend r c (new r c)) (λ r c t. rw t refl));
      }
