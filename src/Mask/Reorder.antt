-- ===== src/Mask/Reorder.antt =====
-- The order in which the neighbours of a pixel are added does not matter.
use cs_261_basics_of_compute.Prelude.{ℕ, ◌+◌, ◌-◌, ◌<◌, ◌≡◌, Bool, true, ◌&&◌, arith, ap, ◌∙◌}
use cs_261_basics_of_compute.Mask.Long.{mul64}
use cs_261_basics_of_compute.Mask.Defs.{Image}
use cs_261_basics_of_compute.Mask.Sweep.{between}
use cs_261_basics_of_compute.Mask.Pass.{weigh, begin, nine_passes}
use cs_261_basics_of_compute.Mask.Pixel.{nine_tests}

-- One addition: its test, its weight, and the old pixel.
record Gain : Type 0 where
  test : Bool
  k : ℕ
  x : ℕ

abbrev gain : Bool → ℕ → ℕ → Gain
gain t k x = record { test = t; k = k; x = x }

abbrev apply : Gain → ℕ × ℕ → ℕ × ℕ
apply a p = weigh a.test a.k a.x p

apply_comm : (a b : Gain) (p : ℕ × ℕ) → apply a (apply b p) ≡ apply b (apply a p)
unfolding weigh
apply_comm a b p = ground arith

past2 : (z a b : Gain) (p : ℕ × ℕ) → apply z (apply a (apply b p)) ≡ apply a (apply b (apply z p))
past2 z a b p = apply_comm z a (apply b p) ∙ ap (apply a) (apply_comm z b p)

past3 :
    (z a b c : Gain) (p : ℕ × ℕ)
    → apply z (apply a (apply b (apply c p))) ≡ apply a (apply b (apply c (apply z p)))
past3 z a b c p = apply_comm z a (apply b (apply c p)) ∙ ap (apply a) (past2 z b c p)

past4 :
    (z a b c d : Gain) (p : ℕ × ℕ)
    → apply z (apply a (apply b (apply c (apply d p))))
      ≡ apply a (apply b (apply c (apply d (apply z p))))
past4 z a b c d p = apply_comm z a (apply b (apply c (apply d p))) ∙ ap (apply a) (past3 z b c d p)

reorder :
    (l r u d tl tr bl br : Gain) (p : ℕ × ℕ)
    → apply br (apply bl (apply tr (apply tl (apply d (apply u (apply r (apply l p)))))))
      ≡ apply br (apply d (apply bl (apply r (apply l (apply tr (apply u (apply tl p)))))))
reorder l r u d tl tr bl br p =
    ap (λ q. apply br (apply bl (apply tr q))) (past4 tl d u r l p)
    ∙ ap (λ q. apply br (apply bl (apply tr (apply d q)))) (past2 u r l (apply tl p))
    ∙ ap (λ q. apply br (apply bl q)) (past3 tr d r l (apply u (apply tl p)))
    ∙ ap (apply br) (apply_comm bl d (apply r (apply l (apply tr (apply u (apply tl p))))))

and_true : (b : Bool) → (b && true) ≡ b
and_true b = ground arith

module _ (old : Image) (rows cols i j : ℕ) (row_in : i < rows) (col_in : j < cols) where
  -- For a pixel of the image, `mask2` reaches the sums of the other two.
  pub nine_tests-nine_passes :
      (p0 : ℕ × ℕ) → nine_tests old rows cols i j ≡ nine_passes old rows cols i j p0
  unfolding nine_tests nine_passes begin
  nine_tests-nine_passes p0 =
      let rows_in : between 0 rows i ≡ true = ground arith in
      let cols_in : between 0 cols j ≡ true = ground arith in
      let up = between 1 rows i in
      let down = between 0 (rows - 1) i in
      let left = between 1 cols j in
      let right = between 0 (cols - 1) j in
      rw (rows_in, cols_in, and_true up, and_true down)
        (reorder (gain left 2 (old i (j - 1))) (gain right 2 (old i (j + 1)))
          (gain up 2 (old (i - 1) j)) (gain down 2 (old (i + 1) j))
          (gain (up && left) 1 (old (i - 1) (j - 1))) (gain (up && right) 1 (old (i - 1) (j + 1)))
          (gain (down && left) 1 (old (i + 1) (j - 1)))
          (gain (down && right) 1 (old (i + 1) (j + 1))) (mul64 4 (old i j), 4))
