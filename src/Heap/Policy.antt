-- ===== src/Heap/Policy.antt =====
-- The allocator on lists of blocks: what a search looks for, and what becomes of the block.
use cs_261_basics_of_compute.Prelude.{
  ℕ, ◌+◌, ◌-◌, ◌*◌, ◌≤◌, ◌≡◌, refl, true, false, not, ◌&&◌, ◌||◌, Option, none, some, List, [], ◌∷◌,
  ◌++◌, arith, ltb, leb, if◌then◌else◌, Bool-cases, inl, inr, ap,
}
use cs_261_basics_of_compute.Heap.Layout.{max_unused_bytes}
use cs_261_basics_of_compute.Heap.Chain.{Block, free_block, used_block, span}

abbrev pub Fits : ℕ → Block → Type 0
Fits need b = (b.used ≡ false) × (need ≤ b.size)

abbrev pub NoneFits : ℕ → List Block → Type 0
NoneFits need [] = Unit
NoneFits need (b ∷ bs) = ¬ (Fits need b) × NoneFits need bs

-- A block that is more than twice as large as needed, or more than `MAX_UNUSED_BYTES` larger, is cut.
unfoldable pub place : ℕ → Block → List Block
place need b =
    if ltb (need + max_unused_bytes) b.size || ltb (need * 2) b.size
    then used_block need ∷ free_block (b.size - need) ∷ []
    else used_block b.size ∷ []

-- The address of the first block that fits, in a list that begins at `a`.
unfoldable pub first_fit : ℕ → ℕ → List Block → Option ℕ
first_fit need a [] = none
first_fit need a (b ∷ bs) =
    if not b.used && leb need b.size then some a else first_fit need (a + b.size) bs

-- What `first_fit` finds.
pub record Found (need a : ℕ) (bs : List Block) (p : ℕ) : Type 0 where
  pub before : List Block
  pub block : Block
  pub after : List Block
  pub parts : bs ≡ before ++ block ∷ after
  pub place : p ≡ a + span before
  pub fits : Fits need block
  pub first : NoneFits need before

pub first_fit-some :
    (need a : ℕ) (bs : List Block) (p : ℕ) → first_fit need a bs ≡ some p → Found need a bs p
unfolding first_fit
first_fit-some need a [] p e = cc
first_fit-some need a (b ∷ bs) p e = elim (Bool-cases (not b.used && leb need b.size)) [
  | inl yes_fits ↦ record {
    before = [];
    block = b;
    after = bs;
    parts = refl;
    place = ground arith;
    fits = ground arith;
    first = tt;
  }
  | inr misses ↦
      let f = first_fit-some need (a + b.size) bs p (rw (misses, first_fit) at e) in
      record {
        before = b ∷ f.before;
        block = f.block;
        after = f.after;
        parts = ap (◌∷◌ b) f.parts;
        place = omega (arith, f.place);
        fits = f.fits;
        first = (λ h. ground arith, f.first);
      }
]

pub first_fit-none : (need a : ℕ) (bs : List Block) → first_fit need a bs ≡ none → NoneFits need bs
unfolding first_fit
first_fit-none need a [] e = tt
first_fit-none need a (b ∷ bs) e = elim (Bool-cases (not b.used && leb need b.size)) [
  | inl yes_fits ↦ ground arith
  | inr misses ↦
      (λ h. ground arith, first_fit-none need (a + b.size) bs (rw (misses, first_fit) at e))
]

pub place_large :
    (need : ℕ) (b : Block)
    → (ltb (need + max_unused_bytes) b.size || ltb (need * 2) b.size) ≡ true
    → place need b ≡ used_block need ∷ free_block (b.size - need) ∷ []
unfolding place
place_large need b e = rw e

pub place_snug :
    (need : ℕ) (b : Block)
    → (ltb (need + max_unused_bytes) b.size || ltb (need * 2) b.size) ≡ false
    → place need b ≡ used_block b.size ∷ []
unfolding place
place_snug need b e = rw e
