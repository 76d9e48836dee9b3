-- ===== src/Heap/NextFit.antt =====
-- `malloc_next_fit` of lab5/implicit.c, lines 292 to 319, on a heap whose `next` is a block.
use mathlib.Core.List.{append_assoc}
use cs_261_basics_of_compute.Prelude.{
  ℕ, ◌+◌, ◌-◌, ◌^◌, ◌%◌, ◌<◌, ◌≡◌, List, ◌∷◌, ◌++◌, arith, length, ap, sym, ◌∙◌, Option-cases, inl,
  inr, length-append,
}
use cs_261_basics_of_compute.Heap.Layout.{Heap, null, get_block_start}
use cs_261_basics_of_compute.Heap.Search.{ok, find_fit, take_and_advance, malloc_next_fit}
use cs_261_basics_of_compute.Heap.Chain.{Block, Holds, span, Chain-split}
use cs_261_basics_of_compute.Heap.Surgery.{span-append}
use cs_261_basics_of_compute.Heap.Policy.{Fits, NoneFits, first_fit, first_fit-some, first_fit-none}
use cs_261_basics_of_compute.Heap.Prepare.{IsRequest, Prepared, prepare-Prepared, Spot-Holds}
use cs_261_basics_of_compute.Heap.Fit.{find_fit-first_fit}

-- The heap after the search has moved `next` to the block before the returned payload.
abbrev pub advance : ℕ × Heap → ℕ × Heap
advance (p, h) = (p, record h { next = p - 4 })

-- What `malloc_next_fit` may return: the blocks `vs` from `next` on are searched first, and all the
-- blocks if none of those fits.
pub data NextFit (h : Heap) (us vs : List Block) (need : ℕ) : ℕ × Heap → Type 0 where
  refused : NoneFits need vs → NoneFits need (us ++ vs) → NextFit h us vs need (null, h)
  ahead :
      (xs : List Block) (c : Block) (ys : List Block) {r : ℕ × Heap}
      → vs ≡ xs ++ c ∷ ys
      → Fits need c
      → NoneFits need xs
      → Prepared h (us ++ xs) c ys need r
      → NextFit h us vs need (advance r)
  wrapped :
      (xs : List Block) (c : Block) (ys : List Block) {r : ℕ × Heap}
      → NoneFits need vs
      → us ++ vs ≡ xs ++ c ∷ ys
      → Fits need c
      → NoneFits need xs
      → Prepared h xs c ys need r
      → NextFit h us vs need (advance r)

module _ (h : Heap) (user_size : ℕ) (r : IsRequest user_size) where
  take_and_advance-Prepared :
      (p : ℕ) (xs : List Block) (c : Block) (ys : List Block)
      → p ≡ h.start + span xs
      → Holds h (xs ++ c ∷ ys)
      → Fits (user_size + 8) c
      → (q : ℕ × Heap) × (take_and_advance h p user_size ≡ ok (advance q))
        × Prepared h xs c ys (user_size + 8) q
  unfolding take_and_advance get_block_start
  take_and_advance-Prepared p xs c ys e k fits =
      let (q, run, done) = prepare-Prepared h xs c ys user_size r k fits in
      let spot = Spot-Holds h xs c ys k in
      let below = k.region.below in
      let back : (q.0 + 2 ^ 64 - 4) % 2 ^ 64 ≡ q.0 - 4 = omega (arith, done.payload, spot.hi) in
      (q, rw e (rw (run, back)), done)

module _ (h : Heap) (us vs : List Block) (user_size fuel : ℕ) (k : Holds h (us ++ vs))
    (boundary : h.next ≡ h.start + span us) (r : IsRequest user_size)
    (enough : length (us ++ vs) < fuel) where
  -- On a heap of blocks with `next` at a block or at the end, with more fuel than blocks, for a multiple
  -- of eight bytes, fewer than 2^32 - 8, `malloc_next_fit` takes the first block from `next` on that
  -- fits, else the first of all that fits, moves `next` to it, and returns `NULL` and leaves the heap
  -- alone if no block fits.
  pub malloc_next_fit-NextFit :
      (q : ℕ × Heap) × (malloc_next_fit fuel h user_size ≡ ok q) × NextFit h us vs (user_size + 8) q
  unfolding malloc_next_fit
  malloc_next_fit-NextFit =
      let need : ℕ = user_size + 8 in
      let past = Chain-split h.mem h.start (h.start + h.size) us vs k.chain in
      let short : length vs < fuel = omega (arith, length-append us vs) in
      let search =
        ap (find_fit fuel h user_size) boundary
        ∙ find_fit-first_fit h k.region user_size r fuel (h.start + span us) vs (omega arith) past.1
            short in
      let again =
        find_fit-first_fit h k.region user_size r fuel h.start (us ++ vs) (omega arith) k.chain
          enough in
      elim (Option-cases (first_fit need (h.start + span us) vs)) [
        | inr (p, found) ↦
            let f = first_fit-some need (h.start + span us) vs p found in
            let parts : us ++ vs ≡ (us ++ f.before) ++ f.block ∷ f.after =
              ap (◌++◌ us) f.parts ∙ sym (append_assoc us f.before (f.block ∷ f.after)) in
            let place : p ≡ h.start + span (us ++ f.before) =
              omega (arith, f.place, span-append us f.before) in
            let (q, run, done) =
              take_and_advance-Prepared h user_size r p (us ++ f.before) f.block f.after place
                (rw parts at k) f.fits in
            (
              advance q,
              rw (search, found) run,
              ahead f.before f.block f.after f.parts f.fits f.first done,
            )
        | inl missing ↦ elim (Option-cases (first_fit need h.start (us ++ vs))) [
          | inl nowhere ↦ (
            (null, h),
            rw (search, missing, again, nowhere),
            refused (first_fit-none need (h.start + span us) vs missing)
                (first_fit-none need h.start (us ++ vs) nowhere),
          )
          | inr (p, found) ↦
              let f = first_fit-some need h.start (us ++ vs) p found in
              let (q, run, done) =
                take_and_advance-Prepared h user_size r p f.before f.block f.after f.place
                  (rw f.parts at k) f.fits in
              (
                advance q,
                rw (search, missing, again, found) run,
                wrapped f.before f.block f.after
                    (first_fit-none need (h.start + span us) vs missing) f.parts f.fits f.first
                    done,
              )
        ]
      ]
