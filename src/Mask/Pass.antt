-- ===== src/Mask/Pass.antt =====
-- One pixel through the passes of `baseMask` (lab6/timemask.c) and `mask1` (lab6/mask.c).
use cs_261_basics_of_compute.Prelude.{ℕ, ◌+◌, ◌-◌, ◌≡◌, Bool, ◌&&◌, arith, ◌==◌, if◌then◌else◌, ◌∙◌}
use cs_261_basics_of_compute.Mask.Loop.{for_loop}
use cs_261_basics_of_compute.Mask.Long.{add64, mul64}
use cs_261_basics_of_compute.Mask.Defs.{
  Image, put, weight_centre, weight_side, weight_corner, Arrays, start_cell, add_cell, base_passes,
  mask1_passes,
}
use cs_261_basics_of_compute.Mask.Sweep.{in_rect, Touches, by_rows-Touches, by_columns-Touches}

-- A pixel of the new image with its weight.
unfoldable pub at_pixel : Arrays → ℕ → ℕ → ℕ × ℕ
at_pixel s r c = (s.new_image r c, s.weight r c)

-- `value += k * x; weight += k`, under a test.
unfoldable pub weigh : Bool → (k x : ℕ) → ℕ × ℕ → ℕ × ℕ
weigh test k x (v, w) = if test then (add64 v (mul64 k x), add64 w k) else (v, w)

-- The pixel, started anew if it lies in the image.
unfoldable pub begin : Bool → ℕ → ℕ × ℕ → ℕ × ℕ
begin test x p = if test then (mul64 weight_centre x, weight_centre) else p

module _ (old : Image) (k : ℕ) (row col : ℕ → ℕ) where
  abbrev gain : ℕ → ℕ → ℕ × ℕ → ℕ × ℕ
  gain r c p = (add64 p.0 (mul64 k (old (row r) (col c))), add64 p.1 k)

  add_cell-Touches :
      (i j : ℕ)
      → Touches at_pixel gain (add_cell old k i j (row i) (col j)) (λ r c. (r == i) && (c == j))
  unfolding at_pixel add_cell put
  add_cell-Touches i j s r c = ground arith

  module _ (rl rh cl ch : ℕ) (s : Arrays) (r c : ℕ) {p : ℕ × ℕ} (before : at_pixel s r c ≡ p) where
    add_columns :
        at_pixel
          (for_loop cl ch (λ i. for_loop rl rh (λ j. add_cell old k j i (row j) (col i))) s)
          r
          c
        ≡ weigh (in_rect rl rh cl ch r c) k (old (row r) (col c)) p
    unfolding weigh
    add_columns =
        by_columns-Touches at_pixel gain (λ i j. add_cell old k i j (row i) (col j))
          (λ i j. add_cell-Touches j i) rl rh cl ch s r c
        ∙ rw before

    add_rows :
        at_pixel
          (for_loop rl rh (λ i. for_loop cl ch (λ j. add_cell old k i j (row i) (col j))) s)
          r
          c
        ≡ weigh (in_rect rl rh cl ch r c) k (old (row r) (col c)) p
    unfolding weigh
    add_rows =
        by_rows-Touches at_pixel gain (λ i j. add_cell old k i j (row i) (col j)) add_cell-Touches
          rl rh cl ch s r c
        ∙ rw before

module _ (old : Image) where
  abbrev restart : ℕ → ℕ → ℕ × ℕ → ℕ × ℕ
  restart r c p = (mul64 weight_centre (old r c), weight_centre)

  start_cell-Touches :
      (i j : ℕ) → Touches at_pixel restart (start_cell old i j) (λ r c. (r == i) && (c == j))
  unfolding at_pixel start_cell put
  start_cell-Touches i j s r c = ground arith

  start_columns :
      (rows cols : ℕ) (s : Arrays) (r c : ℕ)
      → at_pixel (for_loop 0 cols (λ i. for_loop 0 rows (λ j. start_cell old j i)) s) r c
        ≡ begin (in_rect 0 rows 0 cols r c) (old r c) (at_pixel s r c)
  unfolding begin
  start_columns rows cols s r c =
      by_columns-Touches at_pixel restart (λ i j. start_cell old i j)
        (λ i j. start_cell-Touches j i) 0 rows 0 cols s r c

  start_rows :
      (rows cols : ℕ) (s : Arrays) (r c : ℕ)
      → at_pixel (for_loop 0 rows (λ i. for_loop 0 cols (λ j. start_cell old i j)) s) r c
        ≡ begin (in_rect 0 rows 0 cols r c) (old r c) (at_pixel s r c)
  unfolding begin
  start_rows rows cols s r c =
      by_rows-Touches at_pixel restart (λ i j. start_cell old i j) start_cell-Touches 0 rows 0 cols
        s r c

-- What the nine passes make of a pixel.
unfoldable pub nine_passes : Image → (rows cols r c : ℕ) → ℕ × ℕ → ℕ × ℕ
nine_passes old rows cols r c p0 =
    let p1 = begin (in_rect 0 rows 0 cols r c) (old r c) p0 in
    let p2 = weigh (in_rect 1 rows 1 cols r c) weight_corner (old (r - 1) (c - 1)) p1 in
    let p3 = weigh (in_rect 1 rows 0 cols r c) weight_side (old (r - 1) c) p2 in
    let p4 = weigh (in_rect 1 rows 0 (cols - 1) r c) weight_corner (old (r - 1) (c + 1)) p3 in
    let p5 = weigh (in_rect 0 rows 1 cols r c) weight_side (old r (c - 1)) p4 in
    let p6 = weigh (in_rect 0 rows 0 (cols - 1) r c) weight_side (old r (c + 1)) p5 in
    let p7 = weigh (in_rect 0 (rows - 1) 1 cols r c) weight_corner (old (r + 1) (c - 1)) p6 in
    let p8 = weigh (in_rect 0 (rows - 1) 0 cols r c) weight_side (old (r + 1) c) p7 in
    weigh (in_rect 0 (rows - 1) 0 (cols - 1) r c) weight_corner (old (r + 1) (c + 1)) p8

module _ (old : Image) (rows cols : ℕ) (s : Arrays) (r c : ℕ) where
  pub base_passes-nine_passes :
      at_pixel (base_passes old rows cols s) r c ≡ nine_passes old rows cols r c (at_pixel s r c)
  unfolding base_passes nine_passes
  base_passes-nine_passes =
      let same = λ (x : ℕ). x in
      let back = λ (x : ℕ). x - 1 in
      let on = λ (x : ℕ). x + 1 in
      let e1 = start_columns old rows cols s r c in
      let e2 = add_columns old weight_corner back back 1 rows 1 cols _ r c e1 in
      let e3 = add_columns old weight_side back same 1 rows 0 cols _ r c e2 in
      let e4 = add_columns old weight_corner back on 1 rows 0 (cols - 1) _ r c e3 in
      let e5 = add_columns old weight_side same back 0 rows 1 cols _ r c e4 in
      let e6 = add_columns old weight_side same on 0 rows 0 (cols - 1) _ r c e5 in
      let e7 = add_columns old weight_corner on back 0 (rows - 1) 1 cols _ r c e6 in
      let e8 = add_columns old weight_side on same 0 (rows - 1) 0 cols _ r c e7 in
      add_columns old weight_corner on on 0 (rows - 1) 0 (cols - 1) _ r c e8

  pub mask1_passes-nine_passes :
      at_pixel (mask1_passes old rows cols s) r c ≡ nine_passes old rows cols r c (at_pixel s r c)
  unfolding mask1_passes nine_passes
  mask1_passes-nine_passes =
      let same = λ (x : ℕ). x in
      let back = λ (x : ℕ). x - 1 in
      let on = λ (x : ℕ). x + 1 in
      let e1 = start_rows old rows cols s r c in
      let e2 = add_rows old weight_corner back back 1 rows 1 cols _ r c e1 in
      let e3 = add_rows old weight_side back same 1 rows 0 cols _ r c e2 in
      let e4 = add_rows old weight_corner back on 1 rows 0 (cols - 1) _ r c e3 in
      let e5 = add_rows old weight_side same back 0 rows 1 cols _ r c e4 in
      let e6 = add_rows old weight_side same on 0 rows 0 (cols - 1) _ r c e5 in
      let e7 = add_rows old weight_corner on back 0 (rows - 1) 1 cols _ r c e6 in
      let e8 = add_rows old weight_side on same 0 (rows - 1) 0 cols _ r c e7 in
      add_rows old weight_corner on on 0 (rows - 1) 0 (cols - 1) _ r c e8
