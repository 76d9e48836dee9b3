-- ===== src/Heap/BestFit.antt =====
-- `malloc_best_fit` of lab5/implicit.c, lines 264 to 286, with `best_block` starting as `NULL`.
use cs_261_basics_of_compute.Prelude.{
  ℕ, zero, suc, ◌+◌, ◌-◌, ◌^◌, ◌≤◌, ◌<◌, ◌≡◌, refl, false, List, [], ◌∷◌, ◌++◌, arith, leb, ◌==◌,
  Bool-cases, length, ap, inl, inr,
}
use cs_261_basics_of_compute.Heap.Layout.{Heap, null, u32}
use cs_261_basics_of_compute.Heap.Search.{ok, int_le, find_best, malloc_best_fit}
use cs_261_basics_of_compute.Heap.Chain.{
  Block, Chain, Region, Holds, span, Chain-span, block_is_in_use-IsBlock, get_block_size-IsBlock,
}
use cs_261_basics_of_compute.Heap.Policy.{Fits, NoneFits}
use cs_261_basics_of_compute.Heap.Prepare.{
  IsRequest, get_size_to_allocate-IsRequest, Prepared, prepare-Prepared,
}
use cs_261_basics_of_compute.Heap.Fit.{end_outside, block_within, next_of_Chain}

-- No block that fits is smaller than `bound`.
abbrev pub NoneBelow : (bound need : ℕ) → List Block → Type 0
NoneBelow bound need [] = Unit
NoneBelow bound need (b ∷ bs) = (Fits need b → bound ≤ b.size) × NoneBelow bound need bs

NoneBelow-mono :
    (low high need : ℕ) (bs : List Block)
    → low ≤ high
    → NoneBelow high need bs
    → NoneBelow low need bs
NoneBelow-mono low high need [] h n = tt
NoneBelow-mono low high need (b ∷ bs) h (n, ns) =
    (λ f. let above = n f in omega arith, NoneBelow-mono low high need bs h ns)

int_le-leb : (a b : ℕ) → a < 2 ^ 31 → b < 2 ^ 31 → int_le a b ≡ leb a b
unfolding int_le
int_le-leb a b p q = ground arith

-- What the loop makes of `smallest_difference` and `best_block` on the blocks from `a` on.
data Best (need a smallest best : ℕ) (bs : List Block) : ℕ → Type 0 where
  kept : NoneBelow (need + smallest + 1) need bs → Best need a smallest best bs best
  chose :
      (xs : List Block) (c : Block) (ys : List Block) {p : ℕ}
      → bs ≡ xs ++ c ∷ ys
      → p ≡ a + span xs
      → Fits need c
      → c.size ≤ need + smallest
      → NoneBelow c.size need bs
      → Best need a smallest best bs p

-- A block that is passed over.
Best-skip :
    (need a smallest best p : ℕ) (b : Block) (bs : List Block)
    → (Fits need b → need + smallest + 1 ≤ b.size)
    → Best need (a + b.size) smallest best bs p
    → Best need a smallest best (b ∷ bs) p
Best-skip need a smallest best p b bs h (kept n) = kept (h, n)
Best-skip need a smallest best p b bs h (chose xs c ys parts place fits close n) =
    chose (b ∷ xs) c ys (ap (◌∷◌ b) parts) (omega arith) fits close
      (λ f. let above = h f in omega arith, n)

-- A block that is noted.
Best-take :
    (need a smallest best p : ℕ) (b : Block) (bs : List Block)
    → Fits need b
    → b.size ≤ need + smallest
    → Best need (a + b.size) (b.size - need) a bs p
    → Best need a smallest best (b ∷ bs) p
Best-take need a smallest best p b bs f h (kept n) =
    chose [] b bs refl (omega arith) f h
      (λ _. omega arith, NoneBelow-mono b.size _ need bs (omega arith) n)
Best-take need a smallest best p b bs f h (chose xs c ys parts place fits close n) =
    chose (b ∷ xs) c ys (ap (◌∷◌ b) parts) (omega arith) fits (omega arith) (λ _. omega arith, n)

module _ (h : Heap) (region : Region h) (user_size : ℕ) (r : IsRequest user_size) where
  find_best-Best :
      (k a smallest best : ℕ) (bs : List Block)
      → h.start ≤ a
      → smallest < 2 ^ 31
      → Chain h.mem a bs (h.start + h.size)
      → length bs < k
      → (p : ℕ) × (find_best k h user_size smallest best a ≡ ok p)
        × Best (user_size + 8) a smallest best bs p
  unfolding find_best
  find_best-Best zero a s best bs lo small c fuel = absurd (omega arith)
  find_best-Best (suc k) a s best [] lo small c fuel = (best, rw (c, end_outside h region), kept tt)
  find_best-Best (suc k) a s best (b ∷ bs) lo small (i, c) fuel =
      let need : ℕ = user_size + 8 in
      let past = Chain-span h.mem (a + b.size) (h.start + h.size) bs c in
      let bound : b.size < 2 ^ 31 = let tiny = region.small in omega arith in
      let (p, run, out) =
        find_best-Best k (a + b.size) s best bs (omega arith) small c (omega arith) in
      let (p', run', out') =
        find_best-Best k (a + b.size) (b.size - need) a bs (omega arith) (omega arith) c
          (omega arith) in
      let diff : b.size - need < 2 ^ 31 = omega arith in
      rw
        (
          block_within h region a b bs lo (i, c),
          next_of_Chain h region a b bs (i, c),
          block_is_in_use-IsBlock h.mem a b i,
          get_block_size-IsBlock h.mem a b i,
          get_size_to_allocate-IsRequest user_size r,
        )
        (elim (Bool-cases b.used) [
          | inl busy ↦ (p, rw busy run, Best-skip need a s best p b bs (λ f. ground arith) out)
          | inr idle ↦ elim (Bool-cases (leb need b.size)) [
            | inr tight ↦
                (p, rw (idle, tight) run, Best-skip need a s best p b bs (λ f. ground arith) out)
            | inl fits ↦
                let this : u32 (b.size + 2 ^ 32 - need) ≡ b.size - need = ground arith in
                elim (Bool-cases (leb (b.size - need) s)) [
                  | inl better ↦ (
                    p',
                    rw (idle, fits, this, int_le-leb (b.size - need) s diff small, better) run',
                    Best-take need a s best p' b bs (idle, ground arith) (ground arith) out',
                  )
                  | inr worse ↦ (
                    p,
                    rw (idle, fits, this, int_le-leb (b.size - need) s diff small, worse) run,
                    Best-skip need a s best p b bs (λ f. ground arith) out,
                  )
                ]
          ]
        ])

module _ (h : Heap) (bs : List Block) (need : ℕ) (k : Holds h bs) where
  -- Every block is smaller than the region, so the first one that fits is always noted.
  none_too_large :
      (a : ℕ) (cs : List Block)
      → h.start ≤ a
      → Chain h.mem a cs (h.start + h.size)
      → NoneBelow (need + h.size + 1) need cs
      → NoneFits need cs
  none_too_large a [] lo c n = tt
  none_too_large a (b ∷ cs) lo (i, c) (n, ns) =
      let past = Chain-span h.mem (a + b.size) (h.start + h.size) cs c in
      (λ f. let above = n f in omega arith, none_too_large (a + b.size) cs (omega arith) c ns)

-- What `malloc_best_fit` may return on a heap that holds `bs`.
pub data BestFit (h : Heap) (bs : List Block) (need : ℕ) : ℕ × Heap → Type 0 where
  refused : NoneFits need bs → BestFit h bs need (null, h)
  granted :
      (xs : List Block) (c : Block) (ys : List Block) {r : ℕ × Heap}
      → bs ≡ xs ++ c ∷ ys
      → Fits need c
      → NoneBelow c.size need bs
      → Prepared h xs c ys need r
      → BestFit h bs need r

module _ (h : Heap) (bs : List Block) (user_size fuel : ℕ) (k : Holds h bs)
    (r : IsRequest user_size) (enough : length bs < fuel) where
  choose :
      (p : ℕ)
      → Best (user_size + 8) h.start h.size null bs p
      → find_best fuel h user_size (u32 h.size) null h.start ≡ ok p
      → (q : ℕ × Heap) × (malloc_best_fit null fuel h user_size ≡ ok q)
        × BestFit h bs (user_size + 8) q
  unfolding malloc_best_fit
  choose p (kept n) run = (
    (null, h),
    rw run,
    refused (none_too_large h bs (user_size + 8) k h.start bs (omega arith) k.chain n),
  )
  choose p (chose xs c ys parts place fits close n) run =
      let (q, ready, done) = prepare-Prepared h xs c ys user_size r (rw parts at k) fits in
      let aligned = k.region.aligned in
      let there : (p == null) ≡ false = ground arith in
      (q, rw (run, there) (rw place ready), granted xs c ys parts fits n done)

  -- On a heap of blocks, with more fuel than blocks, for a multiple of eight bytes, fewer than
  -- 2^32 - 8, `malloc_best_fit`, with `best_block` starting as `NULL`, takes a smallest block that fits,
  -- and returns `NULL` and leaves the heap alone if no block fits.
  pub malloc_best_fit-BestFit :
      (q : ℕ × Heap) × (malloc_best_fit null fuel h user_size ≡ ok q)
      × BestFit h bs (user_size + 8) q
  malloc_best_fit-BestFit =
      let tiny = k.region.small in
      let size : u32 h.size ≡ h.size = omega arith in
      let (p, run, out) =
        find_best-Best h k.region user_size r fuel h.start h.size null bs (omega arith) tiny k.chain
          enough in
      choose p out (rw size run)
