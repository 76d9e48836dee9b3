-- ===== src/Heap/Merge.antt =====
-- Freeing and merging on lists of blocks, and the order that both keep: no two free neighbours.
use cs_261_basics_of_compute.Prelude.{
  ℕ, ◌+◌, ◌≡◌, refl, ◌⊎◌, inl, inr, Bool, true, false, ◌||◌, List, [], ◌∷◌, ◌++◌, arith,
  if◌then◌else◌, Bool-cases, ltb, ◌*◌,
}
use cs_261_basics_of_compute.Heap.Layout.{max_unused_bytes}
use cs_261_basics_of_compute.Heap.Chain.{Block, free_block}
use cs_261_basics_of_compute.Heap.Policy.{Fits, place, place_large, place_snug}

-- A block joined with the one behind it, if both are free.
unfoldable pub merge : Block → List Block → List Block
merge c [] = c ∷ []
merge c (d ∷ ys) = if c.used || d.used then c ∷ d ∷ ys else free_block (c.size + d.size) ∷ ys

-- The last block of `xs` joined with the first of `zs`.
unfoldable pub rejoin : List Block → List Block → List Block
rejoin [] zs = zs
rejoin (d ∷ []) zs = merge d zs
rejoin (d ∷ d' ∷ ds) zs = d ∷ rejoin (d' ∷ ds) zs

-- The block `c` between `xs` and `ys` given back.
unfoldable pub release : List Block → Block → List Block → List Block
release xs c ys = rejoin xs (merge (free_block c.size) ys)

-- Of two neighbours one is in use; `prev` says whether the block before the list is.
abbrev pub Separated : Bool → List Block → Type 0
Separated prev [] = Unit
Separated prev (b ∷ bs) = ((prev ≡ true) ⊎ (b.used ≡ true)) × Separated b.used bs

Separated-weaken : (bs : List Block) → Separated false bs → Separated true bs
Separated-weaken [] s = tt
Separated-weaken (b ∷ bs) (o, s) = (inl refl, s)

-- Allocating keeps free blocks apart.
pub place-Separated :
    (prev : Bool) (need : ℕ) (xs : List Block) (c : Block) (ys : List Block)
    → Fits need c
    → Separated prev (xs ++ c ∷ ys)
    → Separated prev (xs ++ (place need c ++ ys))
place-Separated prev need [] c ys f (o, s) =
    elim (Bool-cases (ltb (need + max_unused_bytes) c.size || ltb (need * 2) c.size)) [
      | inl large ↦ rw (place_large need c large) (inr refl, (inl refl, rw f.0 at s))
      | inr snug ↦ rw (place_snug need c snug) (inr refl, Separated-weaken ys (rw f.0 at s))
    ]
place-Separated prev need (x ∷ xs) c ys f (o, s) = (o, place-Separated x.used need xs c ys f s)

-- What a freed block becomes: a free block, and blocks that it may stand before.
pub record Freed (zs : List Block) : Type 0 where
  pub size : ℕ
  pub rest : List Block
  pub parts : zs ≡ free_block size ∷ rest
  pub apart : Separated false rest

pub merge-Freed : (n : ℕ) (ys : List Block) → Separated true ys → Freed (merge (free_block n) ys)
unfolding merge
merge-Freed n [] s = record { size = n; rest = []; parts = refl; apart = tt }
merge-Freed n (d ∷ ys) (o, s) = elim (Bool-cases d.used) [
  | inl busy ↦ record { size = n; rest = d ∷ ys; parts = rw busy; apart = (inr busy, s) }
  | inr idle ↦ record { size = n + d.size; rest = ys; parts = simp idle; apart = rw idle at s }
]

rejoin-Separated :
    (d : Block) (ds : List Block) (n : ℕ) (zs : List Block) (prev : Bool)
    → Separated false zs
    → Separated prev (d ∷ ds)
    → Separated prev (rejoin (d ∷ ds) (free_block n ∷ zs))
unfolding rejoin merge
rejoin-Separated d [] n zs prev apart (o, s) = elim (Bool-cases d.used) [
  | inl busy ↦ simp busy (inr refl, (inl refl, apart))
  | inr idle ↦ simp idle (inl (ground arith), apart)
]
rejoin-Separated d (d' ∷ ds) n zs prev apart (o, s) =
    (o, rejoin-Separated d' ds n zs d.used apart s)

Separated-prefix :
    (prev : Bool) (xs ys : List Block) → Separated prev (xs ++ ys) → Separated prev xs
Separated-prefix prev [] ys s = tt
Separated-prefix prev (x ∷ xs) ys (o, s) = (o, Separated-prefix x.used xs ys s)

pub Separated-suffix :
    (prev : Bool) (xs : List Block) (c : Block) (ys : List Block)
    → Separated prev (xs ++ c ∷ ys)
    → Separated c.used ys
Separated-suffix prev [] c ys (o, s) = s
Separated-suffix prev (x ∷ xs) c ys (o, s) = Separated-suffix x.used xs c ys s

-- Giving a used block back keeps free blocks apart.
pub release-Separated :
    (xs : List Block) (c : Block) (ys : List Block)
    → c.used ≡ true
    → Separated true (xs ++ c ∷ ys)
    → Separated true (release xs c ys)
unfolding release
release-Separated [] c ys u s =
    let f = merge-Freed c.size ys (rw u at (Separated-suffix true [] c ys s)) in
    unfold rejoin in rw f.parts (inl refl, f.apart)
release-Separated (d ∷ ds) c ys u s =
    let f = merge-Freed c.size ys (rw u at (Separated-suffix true (d ∷ ds) c ys s)) in
    rw f.parts
      (rejoin-Separated d ds f.size f.rest true f.apart (Separated-prefix true (d ∷ ds) (c ∷ ys) s))
