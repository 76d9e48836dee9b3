-- ===== src/Harness/Draw.antt =====
-- `get_rand_block_size` of lab5/implicit-test.c, lines 31 to 41. `rand k` is what the call number `k`
-- of `rand` returns; an `unsigned long` wraps at 2^64.
use cs_261_basics_of_compute.Prelude.{
  ℕ, zero, suc, ◌+◌, ◌*◌, ◌%◌, ◌^◌, ◌≤◌, ◌<◌, ◌≡◌, refl, false, ltb, ◌==◌, if◌then◌else◌, arith,
  Bool-cases, inl, inr,
}
use cs_261_basics_of_compute.Prelude.Run.{Run, ok, out_of_fuel, ◌>>=◌}
use native.Mathlib.Nat.{mod-lt}

-- `while (size < limit && rand() % odds != 0) size <<= 1;`, with the size and the number of calls.
unfoldable pub double_while : (limit odds fuel : ℕ) (rand : ℕ → ℕ) (size drawn : ℕ) → Run (ℕ × ℕ)
double_while limit odds zero rand size drawn = out_of_fuel
double_while limit odds (suc fuel) rand size drawn =
    let again = double_while limit odds fuel rand (size * 2 % 2 ^ 64) (drawn + 1) in
    if ltb size limit
    then (if rand drawn % odds == 0 then ok (size, drawn + 1) else again)
    else ok (size, drawn)

unfoldable pub get_rand_block_size : (rand : ℕ → ℕ) (drawn : ℕ) → Run (ℕ × ℕ)
get_rand_block_size rand drawn = do
  (size, drawn1) ← double_while 512 6 8 rand 4 drawn
  (size', drawn2) ← double_while 2048 2 10 rand size drawn1
  ok ((size' + rand drawn2 % size') % 2 ^ 64, drawn2 + 1)

-- So many doublings lead to the limit.
data Doubles (limit : ℕ) : ℕ → ℕ → Type 0 where
  there : {size : ℕ} → size ≡ limit → Doubles limit zero size
  twice : {n size : ℕ} → Doubles limit n (size * 2) → Doubles limit (suc n) size

Doubles-le : {limit n size : ℕ} → Doubles limit n size → size ≤ limit
Doubles-le (there e) = omega arith
Doubles-le (twice d) = omega (arith, Doubles-le d)

Doubles-raise : {n size : ℕ} → Doubles 512 n size → Doubles 2048 (suc (suc n)) size
Doubles-raise (there e) = twice (twice (there (omega arith)))
Doubles-raise (twice d) = twice (Doubles-raise d)

module _ (limit odds : ℕ) (rand : ℕ → ℕ) (small : limit < 2 ^ 32) where
  -- The loop ends, at a size from which doublings lead to the limit.
  double_while-Doubles :
      (fuel n size drawn : ℕ)
      → Doubles limit n size
      → n < fuel
      → (size' : ℕ) × (drawn' : ℕ) × (double_while limit odds fuel rand size drawn
          ≡ ok (size', drawn'))
        × (size ≤ size')
        × ((m : ℕ) × (m ≤ n) × Doubles limit m size')
  unfolding double_while
  double_while-Doubles zero n size drawn d enough = absurd (omega arith)
  double_while-Doubles (suc fuel) zero size drawn (there e) enough =
      let full : ltb size limit ≡ false = ground arith in
      (size, drawn, rw full refl, omega arith, (zero, omega arith, there e))
  double_while-Doubles (suc fuel) (suc n) size drawn (twice d) enough =
      let wide : size * 2 % 2 ^ 64 ≡ size * 2 = omega (arith, Doubles-le d) in
      let (size', drawn', run, le, (m, le', d')) =
        double_while-Doubles fuel n (size * 2) (drawn + 1) d (omega arith) in
      elim (Bool-cases (ltb size limit)) [
        | inr full ↦ (size, drawn, rw full refl, omega arith, (suc n, omega arith, twice d))
        | inl small' ↦ elim (Bool-cases (rand drawn % odds == 0)) [
          | inl stop ↦
              (size, drawn + 1, rw (small', stop) refl, omega arith, (suc n, omega arith, twice d))
          | inr on ↦ (size', drawn', rw (small', on, wide) run, omega arith, (m, omega arith, d'))
        ]
      ]

-- Whatever `rand` returns, both loops of `get_rand_block_size` end, and the size is at least 4 and
-- below 4096.
pub get_rand_block_size-bounds :
    (rand : ℕ → ℕ) (drawn : ℕ)
    → (size : ℕ) × (drawn' : ℕ) × (get_rand_block_size rand drawn ≡ ok (size, drawn'))
      × (4 ≤ size)
      × (size < 4096)
unfolding get_rand_block_size
get_rand_block_size-bounds rand drawn =
    let start : Doubles 512 7 4 =
      twice (twice (twice (twice (twice (twice (twice (there refl))))))) in
    let (size, drawn1, run, le, (m, le', d)) =
      double_while-Doubles 512 6 rand (omega arith) 8 7 4 drawn start (omega arith) in
    let (size', drawn2, run', le2, (m', le2', d')) =
      double_while-Doubles 2048 2 rand (omega arith) 10 (suc (suc m)) size drawn1 (Doubles-raise d)
        (omega arith) in
    let added : rand drawn2 % size' < size' = mod-lt (rand drawn2) (omega arith) in
    (
      (size' + rand drawn2 % size') % 2 ^ 64,
      drawn2 + 1,
      rw (run, run') refl,
      omega (arith, Doubles-le d'),
      omega (arith, Doubles-le d'),
    )
