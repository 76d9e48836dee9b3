-- ===== src/Mask/Loop.antt =====
-- The counted loop of C.
use cs_261_basics_of_compute.Prelude.{ℕ, zero, suc, ◌+◌, ◌-◌, ◌<◌, ◌≡◌, arith}

module _ {ℓ} {S : Type ℓ} where
  -- The `n` rounds of a loop from `lo` on.
  unfoldable pub rounds : (lo n : ℕ) → (ℕ → S → S) → S → S
  rounds lo zero body s = s
  rounds lo (suc n) body s = rounds (lo + 1) n body (body lo s)

  -- `for (i = lo; i < hi; i++) body`. A bound of -1, which is `cols - 1` for an empty image, gives no
  -- round, as the bound 0 does.
  unfoldable pub for_loop : (lo hi : ℕ) → (ℕ → S → S) → S → S
  for_loop lo hi body s = rounds lo (hi - lo) body s

-- A property of the state that each round carries on.
rounds-carries :
    {S : Type 0} (P : ℕ → S → Type 0) (n lo : ℕ) (body : ℕ → S → S) (s : S)
    → ((k : ℕ) (t : S) → k < lo + n → P k t → P (k + 1) (body k t))
    → P lo s
    → P (lo + n) (rounds lo n body s)
unfolding rounds
rounds-carries P zero lo body s step p = let e : lo + zero ≡ lo = omega arith in rw e p
rounds-carries P (suc n) lo body s step p =
    let e : lo + suc n ≡ lo + 1 + n = omega arith in
    rw e (
      rounds-carries P n (lo + 1) body (body lo s) (λ k t l. step k t (omega arith))
        (step lo s (omega arith) p))

pub for_loop-carries :
    {S : Type 0} (P : ℕ → S → Type 0) (n : ℕ) (body : ℕ → S → S) (s : S)
    → ((k : ℕ) (t : S) → k < n → P k t → P (k + 1) (body k t))
    → P 0 s
    → P n (for_loop 0 n body s)
unfolding for_loop
for_loop-carries P n body s step p =
    let e : n - 0 ≡ n = omega arith in
    let e' : 0 + n ≡ n = omega arith in
    rw e (rw e' at (rounds-carries P n 0 body s (λ k t l. step k t (omega arith)) p))
