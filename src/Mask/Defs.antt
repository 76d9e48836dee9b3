-- ===== src/Mask/Defs.antt =====
-- The three filters.
use cs_261_basics_of_compute.Prelude.{ℕ, ◌+◌, ◌-◌, ◌&&◌, ltb, leb, ◌==◌, if◌then◌else◌, Bool}
use cs_261_basics_of_compute.Mask.Loop.{for_loop}
use cs_261_basics_of_compute.Mask.Long.{add64, mul64, div64}

abbrev pub Image : Type 0
Image = ℕ → ℕ → ℕ

-- `image[i][j] = v`.
unfoldable pub put : Image → (i j v : ℕ) → Image
put m i j v r c = if (r == i) && (c == j) then v else m r c

abbrev pub weight_centre : ℕ
weight_centre = 4

abbrev pub weight_side : ℕ
weight_side = 2

abbrev pub weight_corner : ℕ
weight_corner = 1

-- The arrays that the passes change.
pub record Arrays : Type 0 where
  pub new_image : Image
  pub weight : Image

-- `newImage[i][j] = WEIGHT_CENTRE * oldImage[i][j]; weight[i][j] = WEIGHT_CENTRE;`
unfoldable pub start_cell : Image → (i j : ℕ) → Arrays → Arrays
start_cell old i j s = record {
  new_image = put s.new_image i j (mul64 weight_centre (old i j));
  weight = put s.weight i j weight_centre;
}

-- `newImage[i][j] += k * oldImage[row][col]; weight[i][j] += k;`
unfoldable pub add_cell : Image → (k i j row col : ℕ) → Arrays → Arrays
add_cell old k i j row col s = record {
  new_image = put s.new_image i j (add64 (s.new_image i j) (mul64 k (old row col)));
  weight = put s.weight i j (add64 (s.weight i j) k);
}

-- The new image and the checksum, in the last pass.
pub record Result : Type 0 where
  pub image : Image
  pub check : ℕ

-- `newImage[i][j] = newImage[i][j] / weight[i][j]; check += newImage[i][j];`
unfoldable pub divide_cell : Image → (i j : ℕ) → Result → Result
divide_cell weight i j s =
    let v = div64 (s.image i j) (weight i j) in
    record { image = put s.image i j v; check = add64 s.check v }

-- `baseMask`: column by column, with `i` the column and `j` the row. `weight` comes from `calloc`.
unfoldable pub base_passes : Image → (rows cols : ℕ) → Arrays → Arrays
base_passes old rows cols s0 =
    let s1 = for_loop 0 cols (λ i. for_loop 0 rows (λ j. start_cell old j i)) s0 in
    -- top left
    let s2 =
      for_loop 1 cols (λ i. for_loop 1 rows (λ j. add_cell old weight_corner j i (j - 1) (i - 1)))
        s1 in
    -- above
    let s3 =
      for_loop 0 cols (λ i. for_loop 1 rows (λ j. add_cell old weight_side j i (j - 1) i)) s2 in
    -- top right
    let s4 =
      for_loop 0 (cols - 1)
        (λ i. for_loop 1 rows (λ j. add_cell old weight_corner j i (j - 1) (i + 1))) s3 in
    -- left
    let s5 =
      for_loop 1 cols (λ i. for_loop 0 rows (λ j. add_cell old weight_side j i j (i - 1))) s4 in
    -- right
    let s6 =
      for_loop 0 (cols - 1) (λ i. for_loop 0 rows (λ j. add_cell old weight_side j i j (i + 1)))
        s5 in
    -- bottom left
    let s7 =
      for_loop 1 cols
        (λ i. for_loop 0 (rows - 1) (λ j. add_cell old weight_corner j i (j + 1) (i - 1))) s6 in
    -- below
    let s8 =
      for_loop 0 cols (λ i. for_loop 0 (rows - 1) (λ j. add_cell old weight_side j i (j + 1) i))
        s7 in
    -- bottom right
    for_loop 0 (cols - 1)
      (λ i. for_loop 0 (rows - 1) (λ j. add_cell old weight_corner j i (j + 1) (i + 1))) s8

unfoldable pub base_mask : (old new : Image) (rows cols : ℕ) → Result
base_mask old new rows cols =
    let s = base_passes old rows cols (record { new_image = new; weight = λ r c. 0 }) in
    for_loop 0 cols (λ i. for_loop 0 rows (λ j. divide_cell s.weight j i))
      (record { image = s.new_image; check = 0 })

unfoldable pub mask0 : (old new : Image) (rows cols : ℕ) → Result
mask0 = base_mask

-- `mask1`: row by row, with `i` the row and `j` the column. `weight` comes from `malloc`, with any
-- contents.
unfoldable pub mask1_passes : Image → (rows cols : ℕ) → Arrays → Arrays
mask1_passes old rows cols s0 =
    let s1 = for_loop 0 rows (λ i. for_loop 0 cols (λ j. start_cell old i j)) s0 in
    -- top left
    let s2 =
      for_loop 1 rows (λ i. for_loop 1 cols (λ j. add_cell old weight_corner i j (i - 1) (j - 1)))
        s1 in
    -- above
    let s3 =
      for_loop 1 rows (λ i. for_loop 0 cols (λ j. add_cell old weight_side i j (i - 1) j)) s2 in
    -- top right
    let s4 =
      for_loop 1 rows
        (λ i. for_loop 0 (cols - 1) (λ j. add_cell old weight_corner i j (i - 1) (j + 1))) s3 in
    -- left
    let s5 =
      for_loop 0 rows (λ i. for_loop 1 cols (λ j. add_cell old weight_side i j i (j - 1))) s4 in
    -- right
    let s6 =
      for_loop 0 rows (λ i. for_loop 0 (cols - 1) (λ j. add_cell old weight_side i j i (j + 1)))
        s5 in
    -- bottom left
    let s7 =
      for_loop 0 (rows - 1)
        (λ i. for_loop 1 cols (λ j. add_cell old weight_corner i j (i + 1) (j - 1))) s6 in
    -- below
    let s8 =
      for_loop 0 (rows - 1) (λ i. for_loop 0 cols (λ j. add_cell old weight_side i j (i + 1) j))
        s7 in
    -- bottom right
    for_loop 0 (rows - 1)
      (λ i. for_loop 0 (cols - 1) (λ j. add_cell old weight_corner i j (i + 1) (j + 1))) s8

unfoldable pub mask1 : (old new malloc_weight : Image) (rows cols : ℕ) → Result
mask1 old new malloc_weight rows cols =
    let s = mask1_passes old rows cols (record { new_image = new; weight = malloc_weight }) in
    for_loop 0 rows (λ i. for_loop 0 cols (λ j. divide_cell s.weight i j))
      (record { image = s.new_image; check = 0 })

-- The state of `mask2`: one weight for all pixels, set anew at each.
pub record Pixel : Type 0 where
  pub image : Image
  pub check : ℕ
  pub weight : ℕ

-- `if (test) { newImage[i][j] += k * oldImage[row][col]; weight += k; }`
unfoldable pub add_if : Bool → Image → (k i j row col : ℕ) → Pixel → Pixel
add_if test old k i j row col s =
    if test
    then record s {
      image = put s.image i j (add64 (s.image i j) (mul64 k (old row col)));
      weight = add64 s.weight k;
    }
    else s

-- One round of the inner loop of `mask2`.
unfoldable pub mask2_cell : Image → (rows cols i j : ℕ) → Pixel → Pixel
mask2_cell old rows cols i j s =
    let inside = (leb 0 i && ltb i rows) && (leb 0 j && ltb j cols) in
    let below_first = leb 1 i && ltb i rows in
    let above_last = leb 0 i && ltb i (rows - 1) in
    let right_of_first = leb 1 j && ltb j cols in
    let left_of_last = leb 0 j && ltb j (cols - 1) in
    let s0 =
      if inside then record s { image = put s.image i j (mul64 4 (old i j)); weight = 4 } else s in
    let s1 =
      if inside
      then (let t1 = add_if right_of_first old 2 i j i (j - 1) s0 in
          let t2 = add_if left_of_last old 2 i j i (j + 1) t1 in
          let t3 = add_if below_first old 2 i j (i - 1) j t2 in
          add_if above_last old 2 i j (i + 1) j t3)
      else s0 in
    let s2 = add_if (below_first && right_of_first) old 1 i j (i - 1) (j - 1) s1 in
    let s3 = add_if (below_first && left_of_last) old 1 i j (i - 1) (j + 1) s2 in
    let s4 = add_if (above_last && right_of_first) old 1 i j (i + 1) (j - 1) s3 in
    let s5 = add_if (above_last && left_of_last) old 1 i j (i + 1) (j + 1) s4 in
    if inside
    then (let v = div64 (s5.image i j) s5.weight in
        record s5 { image = put s5.image i j v; check = add64 s5.check v })
    else s5

unfoldable pub mask2_loop : Image → (rows cols : ℕ) → Pixel → Pixel
mask2_loop old rows cols =
    for_loop 0 rows (λ i. for_loop 0 cols (λ j. mask2_cell old rows cols i j))

unfoldable pub mask2 : (old new : Image) (rows cols : ℕ) → Result
mask2 old new rows cols =
    let s = mask2_loop old rows cols (record { image = new; check = 0; weight = 0 }) in
    record { image = s.image; check = s.check }

-- `mask`, with `MASK_VERSION` as it is set.
unfoldable pub mask : (old new : Image) (rows cols : ℕ) → Result
mask = mask2
