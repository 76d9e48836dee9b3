-- ===== src/Mask/Total.antt =====
-- The checksum that nested loops add up.
use cs_261_basics_of_compute.Prelude.{
  ℕ, zero, suc, ◌+◌, ◌-◌, ◌%◌, ◌≤◌, ◌<◌, ◌≡◌, refl, ◌&&◌, arith, ◌==◌, ◌∙◌,
}
use cs_261_basics_of_compute.Mask.Loop.{rounds, for_loop}
use cs_261_basics_of_compute.Mask.Long.{modulus}
use cs_261_basics_of_compute.Mask.Sweep.{Touches, for_loop-Touches}

-- f lo + … + f (lo + n - 1).
unfoldable pub sum_range : (lo n : ℕ) → (ℕ → ℕ) → ℕ
sum_range lo zero f = 0
sum_range lo (suc n) f = f lo + sum_range (lo + 1) n f

pub sum_range-add :
    (lo n : ℕ) (f g : ℕ → ℕ) → sum_range lo n (λ k. f k + g k) ≡ sum_range lo n f + sum_range lo n g
unfolding sum_range
sum_range-add lo zero f g = omega arith
sum_range-add lo (suc n) f g = omega (arith, sum_range-add (lo + 1) n f g)

pub sum_range-zero : (lo n : ℕ) → sum_range lo n (λ _. 0) ≡ 0
unfolding sum_range
sum_range-zero lo zero = refl
sum_range-zero lo (suc n) = omega (arith, sum_range-zero (lo + 1) n)

pub sum_range-cong :
    (lo n : ℕ) (f g : ℕ → ℕ)
    → ((k : ℕ) → lo ≤ k → k < lo + n → f k ≡ g k)
    → sum_range lo n f ≡ sum_range lo n g
unfolding sum_range
sum_range-cong lo zero f g h = refl
sum_range-cong lo (suc n) f g h = omega (
  arith,
  h lo (omega arith) (omega arith),
  sum_range-cong (lo + 1) n f g (λ k p q. h k (omega arith) (omega arith)),
)

-- The order of summation does not matter.
pub sum_range-swap :
    (a n b m : ℕ) (f : ℕ → ℕ → ℕ)
    → sum_range a n (λ i. sum_range b m (λ j. f i j))
      ≡ sum_range b m (λ j. sum_range a n (λ i. f i j))
unfolding sum_range
sum_range-swap a zero b m f = omega (arith, sum_range-zero b m)
sum_range-swap a (suc n) b m f = omega (
  arith,
  sum_range-swap (a + 1) n b m f,
  sum_range-add b m (λ j. f a j) (λ j. sum_range (a + 1) n (λ i. f i j)),
)

less_zero : (n : ℕ) → n - 0 ≡ n
less_zero n = omega arith

-- `cell i j` changes only the pixel (i, j), and adds to the checksum what it finds there.
module _ {S : Type 0} (view : S → ℕ → ℕ → ℕ) (g amount : ℕ → ℕ → ℕ → ℕ) (check : S → ℕ)
    (cell : (i j : ℕ) → S → S)
    (step : (i j : ℕ) → Touches view g (cell i j) (λ r c. (r == i) && (c == j)))
    (bump : (i j : ℕ) (s : S)
      → check s < modulus
      → check (cell i j s) ≡ (check s + amount i j (view s i j)) % modulus)
    (start : ℕ → ℕ → ℕ) where
  line_total :
      (r n lo : ℕ) (s : S)
      → check s < modulus
      → ((c : ℕ) → lo ≤ c → view s r c ≡ start r c)
      → check (rounds lo n (λ j. cell r j) s)
        ≡ (check s + sum_range lo n (λ c. amount r c (start r c))) % modulus
  unfolding rounds sum_range
  line_total r zero lo s small fresh = omega arith
  line_total r (suc n) lo s small fresh =
      let here = bump r lo s small in
      let rest =
        line_total r n (lo + 1) (cell r lo s) (omega arith)
          (λ c p. ground (arith, step r lo s r c, fresh c)) in
      ground (arith, here, rest, fresh lo)

  area_total :
      (cl ch n lo : ℕ) (s : S)
      → check s < modulus
      → ((r c : ℕ) → lo ≤ r → view s r c ≡ start r c)
      → check (rounds lo n (λ i. for_loop cl ch (λ j. cell i j)) s)
        ≡ (check s + sum_range lo n (λ r. sum_range cl (ch - cl) (λ c. amount r c (start r c))))
          % modulus
  unfolding rounds sum_range
  area_total cl ch zero lo s small fresh = omega arith
  area_total cl ch (suc n) lo s small fresh =
      let here : check (for_loop cl ch (λ j. cell lo j) s)
          ≡ (check s + sum_range cl (ch - cl) (λ c. amount lo c (start lo c))) % modulus =
        unfold for_loop in line_total lo (ch - cl) cl s small (λ c p. fresh lo c (omega arith)) in
      let rest =
        area_total cl ch n (lo + 1) (for_loop cl ch (λ j. cell lo j) s) (omega arith) (λ r c p.
          ground (
            arith,
            for_loop-Touches view g (λ r' c'. c') (λ r' c'. r' == lo) (λ j. cell lo j)
                (λ j t r' c'. ground (arith, step lo j t r' c')) cl ch s r c,
            fresh r c,
          )) in
      omega (arith, here, rest)

  pub by_rows-total :
      (row_hi col_hi : ℕ) (s : S)
      → check s ≡ 0
      → ((r c : ℕ) → view s r c ≡ start r c)
      → check (for_loop 0 row_hi (λ i. for_loop 0 col_hi (λ j. cell i j)) s)
        ≡ sum_range 0 row_hi (λ r. sum_range 0 col_hi (λ c. amount r c (start r c))) % modulus
  by_rows-total rh ch s none fresh =
      let all : check (for_loop 0 rh (λ i. for_loop 0 ch (λ j. cell i j)) s)
          ≡ (check s
              + sum_range 0 (rh - 0) (λ r. sum_range 0 (ch - 0) (λ c. amount r c (start r c))))
            % modulus =
        unfold for_loop in area_total 0 ch (rh - 0) 0 s (omega arith) (λ r c p. fresh r c) in
      all ∙ rw (less_zero rh, less_zero ch, none) (omega arith)
