-- ===== src/Heap/Malloc.antt =====
-- What `heap_malloc` of lab5/implicit.c promises under each of its three policies.
use cs_261_basics_of_compute.Prelude.{
  ℕ, ◌+◌, ◌-◌, ◌%◌, ◌≤◌, ◌<◌, ◌≡◌, refl, ◌≢◌, List, [], ◌∷◌, ◌++◌, arith, length, ap, sym, ◌∙◌,
}
use mathlib.Core.List.{append_assoc}
use cs_261_basics_of_compute.Heap.Layout.{SearchAlg, firstfit, nextfit, bestfit, Heap, null}
use cs_261_basics_of_compute.Heap.Search.{ok, heap_malloc, malloc_with}
use cs_261_basics_of_compute.Heap.Chain.{Block, Chain, Holds, span, Chain-split}
use cs_261_basics_of_compute.Heap.Policy.{Fits, NoneFits, place}
use cs_261_basics_of_compute.Heap.Prepare.{IsRequest, Spot-Holds}
use cs_261_basics_of_compute.Heap.Fit.{FirstFit, malloc_first_fit-FirstFit}
use cs_261_basics_of_compute.Heap.NextFit.{NextFit, malloc_next_fit-NextFit}
use cs_261_basics_of_compute.Heap.BestFit.{BestFit, malloc_best_fit-BestFit}
use cs_261_basics_of_compute.Heap.Dangling.{Boundary}

-- A block that fits has become a used block, cut or whole, and its payload is returned; no block
-- fits, and `NULL` is returned.
pub data Served (h : Heap) (bs : List Block) (user_size : ℕ) : ℕ × Heap → Type 0 where
  refused : NoneFits (user_size + 8) bs → Served h bs user_size (null, h)
  served :
      (xs : List Block) (c : Block) (ys : List Block) {p : ℕ} {h' : Heap}
      → bs ≡ xs ++ c ∷ ys
      → Fits (user_size + 8) c
      → p ≡ h.start + span xs + 4
      → Holds h' (xs ++ (place (user_size + 8) c ++ ys))
      → Served h bs user_size (p, h')

moved : (h : Heap) (a : ℕ) (bs : List Block) → Holds h bs → Holds (record h { next = a }) bs
moved h a bs k = record {
  region = record { aligned = k.region.aligned; small = k.region.small; below = k.region.below };
  chain = k.chain;
}

module _ (h : Heap) (bs : List Block) (user_size : ℕ) where
  FirstFit-Served : (r : ℕ × Heap) → FirstFit h bs (user_size + 8) r → Served h bs user_size r
  FirstFit-Served r (FirstFit.refused n) = refused n
  FirstFit-Served r (FirstFit.granted xs c ys parts fits first done) =
      served xs c ys parts fits done.payload done.holds

  BestFit-Served : (r : ℕ × Heap) → BestFit h bs (user_size + 8) r → Served h bs user_size r
  BestFit-Served r (BestFit.refused n) = refused n
  BestFit-Served r (BestFit.granted xs c ys parts fits least done) =
      served xs c ys parts fits done.payload done.holds

NextFit-Served :
    (h : Heap) (us vs : List Block) (user_size : ℕ) (r : ℕ × Heap)
    → NextFit h us vs (user_size + 8) r
    → Served h (us ++ vs) user_size r
NextFit-Served h us vs u r (NextFit.refused n all) = refused all
NextFit-Served h us vs u r (NextFit.ahead xs c ys {r = q} parts fits first done) =
    served (us ++ xs) c ys (ap (◌++◌ us) parts ∙ sym (append_assoc us xs (c ∷ ys))) fits
      done.payload (moved q.1 (q.0 - 4) _ done.holds)
NextFit-Served h us vs u r (NextFit.wrapped xs c ys {r = q} n parts fits first done) =
    served xs c ys parts fits done.payload (moved q.1 (q.0 - 4) _ done.holds)

module _ (h : Heap) (bs : List Block) (user_size fuel : ℕ) (k : Holds h bs)
    (boundary : Boundary h bs) (r : IsRequest user_size) (enough : length bs < fuel) where
  serve_by_alg :
      (alg : SearchAlg)
      → (q : ℕ × Heap) × (malloc_with alg null fuel h user_size ≡ ok q) × Served h bs user_size q
  unfolding malloc_with
  serve_by_alg firstfit =
      let (q, run, fit) = malloc_first_fit-FirstFit h bs user_size fuel k r enough in
      (q, run, FirstFit-Served h bs user_size q fit)
  serve_by_alg bestfit =
      let (q, run, fit) = malloc_best_fit-BestFit h bs user_size fuel k r enough in
      (q, run, BestFit-Served h bs user_size q fit)
  serve_by_alg nextfit =
      let (us, vs, parts, at_us) = boundary in
      let (q, run, fit) =
        malloc_next_fit-NextFit h us vs user_size fuel (rw parts at k) at_us r
          (rw parts at enough) in
      (q, run, rw parts (NextFit-Served h us vs user_size q fit))

  -- Under each policy, with `best_block` starting as `NULL`, on a heap of blocks whose next-fit pointer
  -- is at a block or at the end, with more fuel than blocks, for a multiple of eight bytes, fewer than
  -- 2^32 - 8, `heap_malloc` returns the payload of a block that fits and that is now in use, or `NULL`
  -- and the heap as it was when no block fits.
  pub heap_malloc-Served :
      (q : ℕ × Heap) × (heap_malloc null fuel h user_size ≡ ok q) × Served h bs user_size q
  unfolding heap_malloc
  heap_malloc-Served = serve_by_alg h.search_alg

span_aligned : (m : ℕ → ℕ) (a e : ℕ) (bs : List Block) → Chain m a bs e → span bs % 8 ≡ 0
span_aligned m a e [] c = omega arith
span_aligned m a e (b ∷ bs) (i, c) =
    let shape = i.shape in omega (arith, span_aligned m (a + b.size) e bs c)

-- The payload that is served is aligned to eight bytes, and lies inside the region with room for the
-- request and for the second copy of the header.
pub Served-payload :
    (h : Heap) (bs : List Block) (user_size p : ℕ) (h' : Heap)
    → Holds h bs
    → Served h bs user_size (p, h')
    → p ≢ null
    → (p % 8 ≡ 0) × (h.start + 4 ≤ p) × (p + user_size + 4 ≤ h.start + h.size)
Served-payload h bs u p h' k (refused n) ne = absurd (ne refl)
Served-payload h bs u p h' k (served xs c ys parts fits place holds) ne =
    let kept = Spot-Holds h xs c ys (rw parts at k) in
    let hi = kept.hi in
    let aligned = k.region.aligned in
    let whole : span xs % 8 ≡ 0 =
      span_aligned h.mem h.start (h.start + span xs) xs
        (Chain-split h.mem h.start (h.start + h.size) xs (c ∷ ys) (rw parts at k.chain)).0 in
    omega arith
