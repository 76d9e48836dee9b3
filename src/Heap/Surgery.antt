-- ===== src/Heap/Surgery.antt =====
-- Replacing some neighbouring blocks of a chain by others that fill the same place.
use cs_261_basics_of_compute.Prelude.{
  ℕ, ◌+◌, ◌≤◌, ◌<◌, ◌≡◌, ◌⊎◌, inl, inr, List, [], ◌∷◌, ◌++◌, arith,
}
use cs_261_basics_of_compute.Heap.Chain.{
  Block, Chain, span, Chain-span, Chain-frame, Chain-append, Chain-split,
}

pub span-append : (xs ys : List Block) → span (xs ++ ys) ≡ span xs + span ys
span-append [] ys = omega arith
span-append (b ∷ xs) ys = omega (arith, span-append xs ys)

-- The words outside the place are those of before; inside it the new blocks have been written.
pub Chain-replace :
    (m m' : ℕ → ℕ) (a e : ℕ) (xs ws zs ys : List Block)
    → Chain m a (xs ++ (ws ++ ys)) e
    → ((x : ℕ) → (x < a + span xs) ⊎ (a + span xs + span ws ≤ x) → m' x ≡ m x)
    → Chain m' (a + span xs) zs (a + span xs + span ws)
    → Chain m' a (xs ++ (zs ++ ys)) e
Chain-replace m m' a e xs ws zs ys c same new =
    let (before, c1) = Chain-split m a e xs (ws ++ ys) c in
    let (old, after) = Chain-split m (a + span xs) e ws ys c1 in
    let width : a + span xs + span zs ≡ a + span xs + span ws =
      Chain-span m' (a + span xs) (a + span xs + span ws) zs new in
    let past = Chain-span m (a + span xs + span ws) e ys after in
    Chain-append m' a e xs (zs ++ ys)
      (Chain-frame m m' a (a + span xs) xs before (λ x lo hi. same x (inl hi)))
      (Chain-append m' (a + span xs) e zs ys (rw width new) (
        rw width
          (Chain-frame m m' (a + span xs + span ws) e ys after (λ x lo hi. same x (inr lo)))))
