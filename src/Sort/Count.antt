-- ===== src/Sort/Count.antt =====
-- Counting the cells of a range that satisfy a test. Two arrays with the same counts for every test
-- are rearrangements of one another over that range.
use native.Mathlib.Nat.{add_assoc, add-suc, add-zero}
use cs_261_basics_of_compute.Prelude.{
  ap, ℕ, zero, suc, ◌+◌, ◌≤◌, ◌<◌, ◌≡◌, refl, ◌⊎◌, Bool, false, arith, if◌then◌else◌, dec_lt,
}
use cs_261_basics_of_compute.Prelude.Int.{ℤ}
use cs_261_basics_of_compute.Prelude.Store.{write, write_ne}
use cs_261_basics_of_compute.Sort.{Mem}

abbrev pub tally : Bool → ℕ
tally b = if b then 1 else 0

-- The cells from `a` on, `n` of them.
unfoldable pub count_if : (ℤ → Bool) → (a n : ℕ) → Mem → ℕ
count_if p a zero m = 0
count_if p a (suc n) m = count_if p a n m + tally (p (m (a + n)))

abbrev pub SameOutside : (a n : ℕ) → Mem → Mem → Type 0
SameOutside a n m m' = (x : ℕ) → (x < a) ⊎ (a + n ≤ x) → m' x ≡ m x

abbrev pub Rearranged : (a n : ℕ) → Mem → Mem → Type 0
Rearranged a n m m' = (p : ℤ → Bool) → count_if p a n m' ≡ count_if p a n m

module _ (p : ℤ → Bool) (a : ℕ) where
  pub count_if-cong :
      (n : ℕ) (m m' : Mem)
      → ((x : ℕ) → a ≤ x → x < a + n → m' x ≡ m x)
      → count_if p a n m' ≡ count_if p a n m
  unfolding count_if
  count_if-cong zero m m' h = refl
  count_if-cong (suc n) m m' h = ground (
    arith,
    h (a + n) (omega arith) (omega arith),
    count_if-cong n m m' (λ x lo hi. h x lo (omega arith)),
  )

  pub count_if-write :
      (n : ℕ) (m : Mem) (x : ℕ) (v : ℤ)
      → a ≤ x
      → x < a + n
      → count_if p a n (write m x v) + tally (p (m x)) ≡ count_if p a n m + tally (p v)
  unfolding count_if write
  count_if-write zero m x v lo hi = absurd (omega arith)
  count_if-write (suc n) m x v lo hi = elim (dec_lt x (a + n)) [
    | yes below ↦ ground (arith, count_if-write n m x v lo below)
    | no last ↦
        ground
          (arith, count_if-cong n m (write m x v) (λ y ylo yhi. write_ne m x v y (omega arith)))
  ]

  pub count_if_split :
      (k n : ℕ) (m : Mem) → count_if p a (k + n) m ≡ count_if p a k m + count_if p (a + k) n m
  unfolding count_if
  count_if_split k zero m = ground (arith, ap (λ t. count_if p a t m) (add-zero k))
  count_if_split k (suc n) m =
      rw add-suc (omega (arith, count_if_split k n m, ap (λ t. tally (p (m t))) (add_assoc a k n)))

  -- A test that no cell passes.
  pub count_if-eq-zero :
      (n : ℕ) (m : Mem) → ((x : ℕ) → a ≤ x → x < a + n → p (m x) ≡ false) → count_if p a n m ≡ 0
  unfolding count_if
  count_if-eq-zero zero m h = refl
  count_if-eq-zero (suc n) m h = ground (
    arith,
    h (a + n) (omega arith) (omega arith),
    count_if-eq-zero n m (λ x lo hi. h x lo (omega arith)),
  )

  pub false_of_count_if :
      (n : ℕ) (m : Mem) → count_if p a n m ≡ 0 → (x : ℕ) → a ≤ x → x < a + n → p (m x) ≡ false
  unfolding count_if
  false_of_count_if zero m h x lo hi = absurd (omega arith)
  false_of_count_if (suc n) m h x lo hi = elim (dec_lt x (a + n)) [
    | yes below ↦ false_of_count_if n m (omega arith) x lo below
    | no last ↦ let e : x ≡ a + n = omega arith in rw e (ground arith)
  ]

-- A cell taken out of its range.
pub count_if_around :
    (p : ℤ → Bool) (a n k i : ℕ) (m : Mem)
    → a + n ≡ i
    → count_if p a (n + (1 + k)) m ≡ count_if p a n m + (tally (p (m i)) + count_if p (i + 1) k m)
unfolding count_if
count_if_around p a n k i m e = rw (← e) (
    omega (
      arith,
      count_if_split p a n (1 + k) m,
      count_if_split p (a + n) 1 k m,
      ap (λ t. tally (p (m t))) (add-zero (a + n)),
    ))
