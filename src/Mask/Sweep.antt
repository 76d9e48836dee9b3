-- ===== src/Mask/Sweep.antt =====
-- What nested loops do to an array, when each round changes the cells of one row or column.
use cs_261_basics_of_compute.Prelude.{
  ℕ, zero, suc, ◌+◌, ◌-◌, ◌≡◌, Bool, ◌&&◌, arith, ltb, leb, ◌==◌, if◌then◌else◌,
}
use cs_261_basics_of_compute.Mask.Loop.{rounds, for_loop}

abbrev pub between : (lo hi x : ℕ) → Bool
between lo hi x = leb lo x && ltb x hi

abbrev pub in_rect : (row_lo row_hi col_lo col_hi r c : ℕ) → Bool
in_rect row_lo row_hi col_lo col_hi r c = between row_lo row_hi r && between col_lo col_hi c

module _ {S A : Type 0} (view : S → ℕ → ℕ → A) (g : ℕ → ℕ → A → A) where
  -- `f` changes the cells at which `p` holds, by `g`, and no others.
  abbrev pub Touches : (S → S) → (ℕ → ℕ → Bool) → Type 0
  Touches f p =
      (s : S) (r c : ℕ) → view (f s) r c ≡ (if p r c then g r c (view s r c) else view s r c)

  rounds-Touches :
      (coord : ℕ → ℕ → ℕ) (q : ℕ → ℕ → Bool) (body : ℕ → S → S)
      → ((k : ℕ) → Touches (body k) (λ r c. (coord r c == k) && q r c))
      → (n lo : ℕ) → Touches (rounds lo n body) (λ r c. between lo (lo + n) (coord r c) && q r c)
  unfolding rounds
  rounds-Touches coord q body step zero lo s r c = ground arith
  rounds-Touches coord q body step (suc n) lo s r c =
      ground (arith, step lo s r c, rounds-Touches coord q body step n (lo + 1) (body lo s) r c)

  pub for_loop-Touches :
      (coord : ℕ → ℕ → ℕ) (q : ℕ → ℕ → Bool) (body : ℕ → S → S)
      → ((k : ℕ) → Touches (body k) (λ r c. (coord r c == k) && q r c))
      → (lo hi : ℕ) → Touches (for_loop lo hi body) (λ r c. between lo hi (coord r c) && q r c)
  unfolding for_loop
  for_loop-Touches coord q body step lo hi s r c =
      ground (arith, rounds-Touches coord q body step (hi - lo) lo s r c)

  -- Row by row, each row from left to right.
  pub by_rows-Touches :
      (cell : (i j : ℕ) → S → S)
      → ((i j : ℕ) → Touches (cell i j) (λ r c. (r == i) && (c == j)))
      → (row_lo row_hi col_lo col_hi : ℕ)
      → Touches
          (for_loop row_lo row_hi (λ i. for_loop col_lo col_hi (λ j. cell i j)))
          (in_rect row_lo row_hi col_lo col_hi)
  by_rows-Touches cell step rl rh cl ch =
      for_loop-Touches (λ r c. r) (λ r c. between cl ch c) (λ i. for_loop cl ch (λ j. cell i j))
        (λ i s r c. ground (
          arith,
          for_loop-Touches (λ r' c'. c') (λ r' c'. r' == i) (λ j. cell i j)
              (λ j t r' c'. ground (arith, step i j t r' c')) cl ch s r c,
        ))
        rl rh

  -- Column by column, each column from the top down.
  pub by_columns-Touches :
      (cell : (i j : ℕ) → S → S)
      → ((i j : ℕ) → Touches (cell j i) (λ r c. (r == j) && (c == i)))
      → (row_lo row_hi col_lo col_hi : ℕ)
      → Touches
          (for_loop col_lo col_hi (λ i. for_loop row_lo row_hi (λ j. cell j i)))
          (in_rect row_lo row_hi col_lo col_hi)
  by_columns-Touches cell step rl rh cl ch s r c = ground (
    arith,
    for_loop-Touches (λ r' c'. c') (λ r' c'. between rl rh r') (λ i. for_loop rl rh (λ j. cell j i))
        (λ i t r' c'. ground (
          arith,
          for_loop-Touches (λ r'' c''. r'') (λ r'' c''. c'' == i) (λ j. cell j i)
              (λ j u r'' c''. step i j u r'' c'') rl rh t r' c',
        ))
        cl ch s r c,
  )
