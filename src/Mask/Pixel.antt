-- ===== src/Mask/Pixel.antt =====
-- One pixel under `mask2` of lab6/mask.c, and under the passes of the other two.
use cs_261_basics_of_compute.Prelude.{
  ℕ, ◌+◌, ◌-◌, ◌<◌, ◌≡◌, refl, Bool, true, false, ◌&&◌, arith, ltb, leb, ◌==◌,
}
use cs_261_basics_of_compute.Mask.Long.{add64, mul64, div64}
use cs_261_basics_of_compute.Mask.Defs.{Image, put, Pixel, add_if, mask2_cell}
use cs_261_basics_of_compute.Mask.Sweep.{between}
use cs_261_basics_of_compute.Mask.Pass.{weigh}

-- The pixel (i, j) of `t` has come to `p`, and nothing else differs from `s` but the weight.
pub record Reached (i j : ℕ) (s t : Pixel) (p : ℕ × ℕ) : Type 0 where
  pub value : t.image i j ≡ p.0
  pub weight : t.weight ≡ p.1
  pub others : (r c : ℕ) → ((r == i) && (c == j)) ≡ false → t.image r c ≡ s.image r c
  pub check : t.check ≡ s.check

-- The order in which `mask2` adds the neighbours.
unfoldable pub nine_tests : Image → (rows cols i j : ℕ) → ℕ × ℕ
nine_tests old rows cols i j =
    let up = between 1 rows i in
    let down = between 0 (rows - 1) i in
    let left = between 1 cols j in
    let right = between 0 (cols - 1) j in
    let p1 = weigh left 2 (old i (j - 1)) (mul64 4 (old i j), 4) in
    let p2 = weigh right 2 (old i (j + 1)) p1 in
    let p3 = weigh up 2 (old (i - 1) j) p2 in
    let p4 = weigh down 2 (old (i + 1) j) p3 in
    let p5 = weigh (up && left) 1 (old (i - 1) (j - 1)) p4 in
    let p6 = weigh (up && right) 1 (old (i - 1) (j + 1)) p5 in
    let p7 = weigh (down && left) 1 (old (i + 1) (j - 1)) p6 in
    weigh (down && right) 1 (old (i + 1) (j + 1)) p7

module _ (old : Image) (i j : ℕ) (s : Pixel) where
  Reached-add_if :
      (test : Bool) (k row col : ℕ) (t : Pixel) (p : ℕ × ℕ)
      → Reached i j s t p
      → Reached i j s (add_if test old k i j row col t) (weigh test k (old row col) p)
  unfolding add_if weigh put
  Reached-add_if true k row col t p d = record {
    value = ground (arith, d.value);
    weight = ground (arith, d.weight);
    others = λ r c e. ground (arith, d.others r c e);
    check = d.check;
  }
  Reached-add_if false k row col t p d = d

  first : Pixel
  first = record s { image = put s.image i j (mul64 4 (old i j)); weight = 4 }

  first-Reached : Reached i j s first (mul64 4 (old i j), 4)
  unfolding first put
  first-Reached = record {
    value = ground arith;
    weight = refl;
    others = λ r c e. ground arith;
    check = refl;
  }

  module _ (rows cols : ℕ) (row_in : i < rows) (col_in : j < cols) where
    pub before_division : Pixel
    before_division =
        let up = between 1 rows i in
        let down = between 0 (rows - 1) i in
        let left = between 1 cols j in
        let right = between 0 (cols - 1) j in
        let t1 = add_if left old 2 i j i (j - 1) first in
        let t2 = add_if right old 2 i j i (j + 1) t1 in
        let t3 = add_if up old 2 i j (i - 1) j t2 in
        let t4 = add_if down old 2 i j (i + 1) j t3 in
        let t5 = add_if (up && left) old 1 i j (i - 1) (j - 1) t4 in
        let t6 = add_if (up && right) old 1 i j (i - 1) (j + 1) t5 in
        let t7 = add_if (down && left) old 1 i j (i + 1) (j - 1) t6 in
        add_if (down && right) old 1 i j (i + 1) (j + 1) t7

    pub before_division-Reached : Reached i j s before_division (nine_tests old rows cols i j)
    unfolding before_division nine_tests
    before_division-Reached =
        let up = between 1 rows i in
        let down = between 0 (rows - 1) i in
        let left = between 1 cols j in
        let right = between 0 (cols - 1) j in
        let d1 = Reached-add_if left 2 i (j - 1) _ _ first-Reached in
        let d2 = Reached-add_if right 2 i (j + 1) _ _ d1 in
        let d3 = Reached-add_if up 2 (i - 1) j _ _ d2 in
        let d4 = Reached-add_if down 2 (i + 1) j _ _ d3 in
        let d5 = Reached-add_if (up && left) 1 (i - 1) (j - 1) _ _ d4 in
        let d6 = Reached-add_if (up && right) 1 (i - 1) (j + 1) _ _ d5 in
        let d7 = Reached-add_if (down && left) 1 (i + 1) (j - 1) _ _ d6 in
        Reached-add_if (down && right) 1 (i + 1) (j + 1) _ _ d7

    pub mask2_cell_inside :
        let v = div64 (before_division.image i j) before_division.weight in
        mask2_cell old rows cols i j s ≡ record before_division {
          image = put before_division.image i j v;
          check = add64 before_division.check v;
        }
    unfolding mask2_cell before_division first
    mask2_cell_inside =
        let inside : ((leb 0 i && ltb i rows) && (leb 0 j && ltb j cols)) ≡ true = ground arith in
        rw inside
