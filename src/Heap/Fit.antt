-- ===== src/Heap/Fit.antt =====
-- `malloc_first_fit` and `malloc_next_fit` of lab5/implicit.c against the list of blocks.
use cs_261_basics_of_compute.Prelude.{
  ℕ, zero, suc, ◌+◌, ◌≤◌, ◌<◌, ◌≡◌, inl, inr, true, false, List, [], ◌∷◌, ◌++◌, arith, length,
  Option-cases,
}
use cs_261_basics_of_compute.Heap.Layout.{Heap, null, get_next_block, is_within_heap_range}
use cs_261_basics_of_compute.Heap.Search.{ok, find_fit, malloc_first_fit}
use cs_261_basics_of_compute.Heap.Chain.{
  Block, Chain, Region, Holds, Chain-span, block_is_in_use-IsBlock, get_block_size-IsBlock,
  get_next_block-IsBlock,
}
use cs_261_basics_of_compute.Heap.Policy.{Fits, NoneFits, first_fit, first_fit-some, first_fit-none}
use cs_261_basics_of_compute.Heap.Prepare.{
  IsRequest, get_size_to_allocate-IsRequest, Prepared, prepare-Prepared,
}

module _ (h : Heap) (region : Region h) where
  pub end_outside : is_within_heap_range h (h.start + h.size) ≡ false
  unfolding is_within_heap_range
  end_outside = let open_region = region.below in ground arith

  pub block_within :
      (a : ℕ) (b : Block) (bs : List Block)
      → h.start ≤ a
      → Chain h.mem a (b ∷ bs) (h.start + h.size)
      → is_within_heap_range h a ≡ true
  unfolding is_within_heap_range
  block_within a b bs lo (i, c) =
      let below = region.below in
      let shape = i.shape in ground (arith, Chain-span h.mem (a + b.size) (h.start + h.size) bs c)

  pub next_of_Chain :
      (a : ℕ) (b : Block) (bs : List Block)
      → Chain h.mem a (b ∷ bs) (h.start + h.size)
      → get_next_block h.mem a ≡ a + b.size
  next_of_Chain a b bs (i, c) =
      let below = region.below in
      get_next_block-IsBlock h.mem a b i
        (omega (arith, Chain-span h.mem (a + b.size) (h.start + h.size) bs c))

  -- The loop over the heap is the search of the list.
  pub find_fit-first_fit :
      (user_size : ℕ)
      → IsRequest user_size
      → (k a : ℕ) (bs : List Block) → h.start ≤ a
      → Chain h.mem a bs (h.start + h.size)
      → length bs < k
      → find_fit k h user_size a ≡ ok (first_fit (user_size + 8) a bs)
  unfolding find_fit first_fit
  find_fit-first_fit u r zero a bs lo c fuel = absurd (omega arith)
  find_fit-first_fit u r (suc k) a [] lo c fuel = rw (c, end_outside)
  find_fit-first_fit u r (suc k) a (b ∷ bs) lo (i, c) fuel =
      let ih = find_fit-first_fit u r k (a + b.size) bs (omega arith) c (omega arith) in
      rw
        (
          block_within a b bs lo (i, c),
          next_of_Chain a b bs (i, c),
          block_is_in_use-IsBlock h.mem a b i,
          get_block_size-IsBlock h.mem a b i,
          get_size_to_allocate-IsRequest u r,
        )
        (ground (arith, ih))

-- What a search may return on a heap that holds `bs`: nothing, if no block fits, or the first block
-- that fits, prepared.
pub data FirstFit (h : Heap) (bs : List Block) (need : ℕ) : ℕ × Heap → Type 0 where
  refused : NoneFits need bs → FirstFit h bs need (null, h)
  granted :
      (xs : List Block) (c : Block) (ys : List Block) {r : ℕ × Heap}
      → bs ≡ xs ++ c ∷ ys
      → Fits need c
      → NoneFits need xs
      → Prepared h xs c ys need r
      → FirstFit h bs need r

module _ (h : Heap) (bs : List Block) (user_size fuel : ℕ) (k : Holds h bs)
    (r : IsRequest user_size) (enough : length bs < fuel) where
  -- On a heap of blocks, with more fuel than blocks, for a multiple of eight bytes, fewer than
  -- 2^32 - 8, `malloc_first_fit` takes the first block that fits, and returns `NULL` and leaves the heap
  -- alone if there is none.
  pub malloc_first_fit-FirstFit :
      (q : ℕ × Heap) × (malloc_first_fit fuel h user_size ≡ ok q) × FirstFit h bs (user_size + 8) q
  unfolding malloc_first_fit
  malloc_first_fit-FirstFit =
      let search =
        find_fit-first_fit h k.region user_size r fuel h.start bs (omega arith) k.chain enough in
      elim (Option-cases (first_fit (user_size + 8) h.start bs)) [
        | inl missing ↦ (
          (null, h),
          rw (search, missing),
          refused (first_fit-none (user_size + 8) h.start bs missing),
        )
        | inr (p, found) ↦
            let f = first_fit-some (user_size + 8) h.start bs p found in
            let (q, run, done) =
              prepare-Prepared h f.before f.block f.after user_size r (rw f.parts at k) f.fits in
            (
              q,
              rw (search, found, f.place) run,
              granted f.before f.block f.after f.parts f.fits f.first done,
            )
      ]
