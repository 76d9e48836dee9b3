-- ===== src/Heap/InUse.antt =====
-- The blocks of lab5/implicit.c that are in use keep their places.
use cs_261_basics_of_compute.Prelude.{
  ℕ, ◌+◌, ◌*◌, ◌≤◌, ◌≡◌, ◌≢◌, refl, true, false, ◌||◌, inl, inr, Bool-cases, List, [], ◌∷◌, ◌++◌,
  ltb, arith, ap,
}
use cs_261_basics_of_compute.Heap.Layout.{max_unused_bytes}
use cs_261_basics_of_compute.Heap.Chain.{Block, free_block, Chain, span}
use cs_261_basics_of_compute.Heap.Policy.{Fits, place, place_large, place_snug}
use cs_261_basics_of_compute.Heap.Merge.{merge, rejoin, release}

-- In blocks that begin at `a`, `p` is the payload of one in use.
pub data InUse : ℕ → ℕ → List Block → Type 0 where
  here : {a p : ℕ} {b : Block} {bs : List Block} → b.used ≡ true → p ≡ a + 4 → InUse a p (b ∷ bs)
  there : {a p : ℕ} {b : Block} {bs : List Block} → InUse (a + b.size) p bs → InUse a p (b ∷ bs)

pub InUse-shift : {a a' p : ℕ} {bs : List Block} → a ≡ a' → InUse a p bs → InUse a' p bs
InUse-shift e i = rw e at i

-- What is in use in a part is in use in the whole, and the other way round.
pub InUse-suffix : (a p : ℕ) (xs ys : List Block) → InUse (a + span xs) p ys → InUse a p (xs ++ ys)
InUse-suffix a p [] ys i = InUse-shift (omega arith) i
InUse-suffix a p (x ∷ xs) ys i =
    there (InUse-suffix (a + x.size) p xs ys (InUse-shift (omega arith) i))

pub InUse-prefix :
    (a p : ℕ) (xs ys zs : List Block)
    → InUse a p (xs ++ ys)
    → (InUse (a + span xs) p ys → InUse (a + span xs) p zs)
    → InUse a p (xs ++ zs)
InUse-prefix a p [] ys zs i f = InUse-shift (omega arith) (f (InUse-shift (omega arith) i))
InUse-prefix a p (x ∷ xs) ys zs (here u e) f = here u e
InUse-prefix a p (x ∷ xs) ys zs (there i) f = there (
    InUse-prefix (a + x.size) p xs ys zs i
      (λ j. InUse-shift (omega arith) (f (InUse-shift (omega arith) j))))

-- Cutting a free block, or taking it whole, moves no other block.
pub place-InUse :
    (a p need : ℕ) (c : Block) (ys : List Block)
    → Fits need c
    → InUse a p (c ∷ ys)
    → InUse a p (place need c ++ ys)
place-InUse a p need c ys fits (here u e) = absurd (ground (arith, fits.0, u))
place-InUse a p need c ys fits (there i) =
    elim (Bool-cases (ltb (need + max_unused_bytes) c.size || ltb (need * 2) c.size)) [
      | inl large ↦
          rw (place_large need c large) (there (there (InUse-shift (omega (arith, fits.1)) i)))
      | inr snug ↦ rw (place_snug need c snug) (there i)
    ]

both_free :
    (a p : ℕ) (d z : Block) (zs : List Block)
    → (d.used ≡ false) × (z.used ≡ false)
    → InUse a p (d ∷ z ∷ zs)
    → InUse a p (free_block (d.size + z.size) ∷ zs)
both_free a p d z zs free (here u e) = absurd (ground (arith, free.0, u))
both_free a p d z zs free (there (here u e)) = absurd (ground (arith, free.1, u))
both_free a p d z zs free (there (there i)) = there (InUse-shift (omega arith) i)

not_here :
    (a p : ℕ) (c : Block) (ys : List Block)
    → p ≢ a + 4
    → InUse a p (c ∷ ys)
    → InUse a p (free_block c.size ∷ ys)
not_here a p c ys ne (here u e) = absurd (ne e)
not_here a p c ys ne (there i) = there i

merge-InUse : (a p : ℕ) (d : Block) (zs : List Block) → InUse a p (d ∷ zs) → InUse a p (merge d zs)
unfolding merge
merge-InUse a p d [] i = i
merge-InUse a p d (z ∷ zs) i = elim (Bool-cases (d.used || z.used)) [
  | inl apart ↦ rw apart i
  | inr both ↦ rw both (both_free a p d z zs (ground (arith, both)) i)
]

rejoin-InUse : (a p : ℕ) (xs zs : List Block) → InUse a p (xs ++ zs) → InUse a p (rejoin xs zs)
unfolding rejoin
rejoin-InUse a p [] zs i = i
rejoin-InUse a p (x ∷ []) zs i = merge-InUse a p x zs i
rejoin-InUse a p (x ∷ x' ∷ xs) zs (here u e) = here u e
rejoin-InUse a p (x ∷ x' ∷ xs) zs (there i) = there (rejoin-InUse (a + x.size) p (x' ∷ xs) zs i)

-- The block that has been placed is in use.
pub place_here : (a need : ℕ) (c : Block) (ys : List Block) → InUse a (a + 4) (place need c ++ ys)
place_here a need c ys =
    elim (Bool-cases (ltb (need + max_unused_bytes) c.size || ltb (need * 2) c.size)) [
      | inl large ↦ rw (place_large need c large) (here refl refl)
      | inr snug ↦ rw (place_snug need c snug) (here refl refl)
    ]

-- Giving back a block moves no other one in use.
pub release-InUse :
    (a p : ℕ) (xs : List Block) (c : Block) (ys : List Block)
    → p ≢ a + span xs + 4
    → InUse a p (xs ++ c ∷ ys)
    → InUse a p (release xs c ys)
unfolding release
release-InUse a p xs c ys ne i = rejoin-InUse a p xs (merge (free_block c.size) ys) (
    InUse-prefix a p xs (c ∷ ys) (merge (free_block c.size) ys) i (λ j.
      merge-InUse (a + span xs) p (free_block c.size) ys (not_here (a + span xs) p c ys ne j)))

-- What is in use is a block between others.
pub record Between (a p : ℕ) (bs : List Block) : Type 0 where
  pub before : List Block
  pub block : Block
  pub after : List Block
  pub parts : bs ≡ before ++ block ∷ after
  pub used : block.used ≡ true
  pub place : p ≡ a + span before + 4

pub InUse-Between : {a p : ℕ} {bs : List Block} → InUse a p bs → Between a p bs
InUse-Between (here {b = b} {bs = bs} u e) = record {
  before = [];
  block = b;
  after = bs;
  parts = refl;
  used = u;
  place = omega (arith, e);
}
InUse-Between (there {b = b} i) =
    let t = InUse-Between i in
    record {
      before = b ∷ t.before;
      block = t.block;
      after = t.after;
      parts = ap (◌∷◌ b) t.parts;
      used = t.used;
      place = omega (arith, t.place);
    }

InUse-lower : {a p : ℕ} {bs : List Block} → InUse a p bs → a + 4 ≤ p
InUse-lower (here u e) = omega (arith, e)
InUse-lower (there i) = omega (arith, InUse-lower i)

-- The payload of a free block is not in use.
pub free-InUse :
    (m : ℕ → ℕ) (a e p : ℕ) (xs : List Block) (c : Block) (ys : List Block)
    → Chain m a (xs ++ c ∷ ys) e
    → c.used ≡ false
    → InUse a p (xs ++ c ∷ ys)
    → p ≢ a + span xs + 4
free-InUse m a e p [] c ys (k, ks) free (here u eq) same = absurd (ground (arith, u, free))
free-InUse m a e p [] c ys (k, ks) free (there i) same =
    let shape = k.shape in omega (arith, InUse-lower i, same)
free-InUse m a e p (x ∷ xs) c ys (k, ks) free (here u eq) same =
    let shape = k.shape in omega (arith, eq, same)
free-InUse m a e p (x ∷ xs) c ys (k, ks) free (there i) same =
    free-InUse m (a + x.size) e p xs c ys ks free i (omega (arith, same))
