-- ===== src/Heap/Free.antt =====
-- `heap_free` of lab5/implicit.c, lines 232 to 238, on a heap that holds a list of blocks.
use mathlib.Core.List.{append_assoc}
use cs_261_basics_of_compute.Prelude.{
  ℕ, ◌+◌, ◌-◌, ◌^◌, ◌<◌, ◌≡◌, refl, ◌⊎◌, true, false, List, [], ◌∷◌, ◌++◌, arith, inl, inr, ap, sym,
  ◌∙◌, dec_lt,
}
use cs_261_basics_of_compute.Heap.Layout.{
  Heap, ptr_sub, get_block_size, set_block_header, is_within_heap_range, get_block_start,
  get_previous_block,
}
use cs_261_basics_of_compute.Heap.Release.{coalesce, heap_free}
use cs_261_basics_of_compute.Heap.Chain.{
  Block, free_block, IsBlock, Region, Holds, span, get_block_size-IsBlock, set_block_header-IsBlock,
  set_block_header_frame, get_previous_block-IsBlock,
}
use cs_261_basics_of_compute.Heap.Surgery.{span-append}
use cs_261_basics_of_compute.Heap.Prepare.{with_mem, Holds-replace, Spot-Holds}
use cs_261_basics_of_compute.Heap.Coalesce.{
  Kept, coalesce-merge, coalesce_outside, coalesce_last, coalesce_busy,
}
use cs_261_basics_of_compute.Heap.Merge.{
  merge, rejoin, release, Separated, Separated-suffix, merge-Freed, release-Separated,
}

rejoin_last :
    (xs : List Block) (d : Block) (zs : List Block) → rejoin (xs ++ d ∷ []) zs ≡ xs ++ merge d zs
unfolding rejoin
rejoin_last [] d zs = refl
rejoin_last (x ∷ []) d zs = refl
rejoin_last (x ∷ x' ∷ xs) d zs = ap (◌∷◌ x) (rejoin_last (x' ∷ xs) d zs)

-- A list is empty or has a last block.
record Snoc (xs : List Block) : Type 0 where
  front : List Block
  last : Block
  parts : xs ≡ front ++ last ∷ []

snoc : (x : Block) (xs : List Block) → Snoc (x ∷ xs)
snoc x [] = record { front = []; last = x; parts = refl }
snoc x (y ∷ ys) =
    let s = snoc y ys in record { front = x ∷ s.front; last = s.last; parts = ap (◌∷◌ x) s.parts }

-- The header of the block is cleared.
module _ (h : Heap) (xs : List Block) (c : Block) (ys : List Block) (p : ℕ)
    (e : p ≡ h.start + span xs) (k : Holds h (xs ++ c ∷ ys)) where
  abbrev cleared : Heap
  cleared = with_mem h (set_block_header h.mem p (get_block_size h.mem p) 0)

  cleared-Holds : Holds cleared (xs ++ free_block c.size ∷ ys) × Kept h cleared p
  cleared-Holds =
      let spot = Spot-Holds h xs c ys k in
      let i : IsBlock h.mem p c = rw e spot.at_block in
      let size = get_block_size-IsBlock h.mem p c i in
      let small = k.region.small in
      let below = k.region.below in
      let hi = spot.hi in
      let shape = i.shape in
      let new = set_block_header-IsBlock h.mem p c.size false shape (omega arith) (omega arith) in
      let frame = set_block_header_frame h.mem p c.size false shape (omega arith) (omega arith) in
      rw size (
        Holds-replace h (set_block_header h.mem p c.size 0) xs (c ∷ []) (free_block c.size ∷ []) ys
            k (λ x o. frame x (omega arith) (omega arith)) (rw (← e) (new, omega arith)),
        record {
          start = refl;
          size = refl;
          search_alg = refl;
          mem = λ x q. frame x (omega arith) (omega arith);
        },
      )

-- With a block in front, the pointer to it is found through its footer.
merge_back :
    (h : Heap) (xs : List Block) (d : Block) (zs : List Block) (p : ℕ)
    → p ≡ h.start + span (xs ++ d ∷ [])
    → Holds h (xs ++ d ∷ zs)
    → Holds (coalesce h (get_previous_block h.mem p)) (xs ++ merge d zs)
merge_back h xs d zs p e k =
    let spot = Spot-Holds h xs d zs k in
    let below = k.region.below in
    let hi = spot.hi in
    let prev =
      get_previous_block-IsBlock h.mem (h.start + span xs) d spot.at_block p
        (omega (arith, span-append xs (d ∷ []))) (omega (arith, span-append xs (d ∷ []))) in
    (coalesce-merge h xs d zs (get_previous_block h.mem p) prev k).0

-- In front of the first block there is a word that is no footer: the pointer that is computed from
-- it is the block itself or lies outside the region.
before_first :
    (h : Heap)
    → Region h
    → h.mem (h.start - 4) < 2 ^ 32
    → (get_previous_block h.mem h.start ≡ h.start)
      ⊎ (is_within_heap_range h (get_previous_block h.mem h.start) ≡ false)
unfolding get_previous_block get_block_size is_within_heap_range
before_first h r word =
    let aligned = r.aligned in
    let below = r.below in
    let back : ptr_sub h.start 4 ≡ h.start - 4 = omega arith in
    rw back (elim (dec_lt (h.mem (h.start - 4)) 4) [
      | yes few ↦ inl (omega arith)
      | no many ↦ inr (ground arith)
    ])

-- A block that stands before no free one is left alone.
coalesce_apart :
    (h : Heap) (n : ℕ) (zs : List Block)
    → Holds h (free_block n ∷ zs)
    → Separated false zs
    → coalesce h h.start ≡ h
coalesce_apart h n [] k s = coalesce_last h [] (free_block n) h.start (omega arith) k
coalesce_apart h n (d ∷ zs) k (o, s) =
    coalesce_busy h [] (free_block n) d zs h.start (omega arith) k (ground arith)

merge_first :
    (h : Heap) (n : ℕ) (zs : List Block)
    → Holds h (free_block n ∷ zs)
    → Separated false zs
    → h.mem (h.start - 4) < 2 ^ 32
    → Holds (coalesce h (get_previous_block h.mem h.start)) (free_block n ∷ zs)
merge_first h n zs k s word = elim (before_first h k.region word) [
  | inl same ↦ rw (ap (coalesce h) same ∙ coalesce_apart h n zs k s) k
  | inr out ↦ rw (coalesce_outside h (get_previous_block h.mem h.start) out) k
]

-- The last call of `heap_free`, after the freed block has been merged with the one behind it.
finish :
    (h : Heap) (xs : List Block) (n : ℕ) (ys : List Block) (p : ℕ)
    → p ≡ h.start + span xs
    → Holds h (xs ++ merge (free_block n) ys)
    → Separated true ys
    → h.mem (h.start - 4) < 2 ^ 32
    → Holds (coalesce h (get_previous_block h.mem p)) (rejoin xs (merge (free_block n) ys))
unfolding rejoin
finish h [] n ys p e k s word =
    let f = merge-Freed n ys s in
    let at_start : p ≡ h.start = omega arith in
    rw (f.parts, at_start) (merge_first h f.size f.rest (rw f.parts at k) f.apart word)
finish h (x ∷ xs) n ys p e k s word =
    let l = snoc x xs in
    let zs = merge (free_block n) ys in
    let parts : (x ∷ xs) ++ zs ≡ l.front ++ l.last ∷ zs =
      ap (λ us. us ++ zs) l.parts ∙ append_assoc l.front (l.last ∷ []) zs in
    let place : p ≡ h.start + span (l.front ++ l.last ∷ []) =
      e ∙ ap (λ us. h.start + span us) l.parts in
    let spec : rejoin (x ∷ xs) zs ≡ l.front ++ merge l.last zs =
      ap (λ us. rejoin us zs) l.parts ∙ rejoin_last l.front l.last zs in
    rw spec (merge_back h l.front l.last zs p place (rw parts at k))

module _ (h : Heap) (xs : List Block) (c : Block) (ys : List Block) (k : Holds h (xs ++ c ∷ ys))
    (apart : Separated true (xs ++ c ∷ ys)) (used : c.used ≡ true)
    (word : h.mem (h.start - 4) < 2 ^ 32) where
  -- On a heap of blocks with no two free neighbours, `heap_free` of the payload of a used block gives
  -- a heap that holds the same blocks, with this one free and merged with its free neighbours, and
  -- again no two free neighbours.
  pub heap_free-release :
      Holds (heap_free h (h.start + span xs + 4)) (release xs c ys)
      × Separated true (release xs c ys)
  unfolding heap_free get_block_start release
  heap_free-release =
      let p : ℕ = h.start + span xs in
      let spot = Spot-Holds h xs c ys k in
      let hi = spot.hi in
      let below = k.region.below in
      let back : ptr_sub (p + 4) 4 ≡ p = omega arith in
      let (k1, same1) = cleared-Holds h xs c ys p refl k in
      let (k2, same2) =
        coalesce-merge (cleared h xs c ys p refl k) xs (free_block c.size) ys p refl k1 in
      let aligned = k.region.aligned in
      let early : h.start - 4 < p = omega arith in
      let start : h.start + span xs ≡ (coalesce (cleared h xs c ys p refl k) p).start + span xs =
        ap (λ a. a + span xs) (sym same2.start) in
      let still : (coalesce (cleared h xs c ys p refl k) p).mem (h.start - 4) < 2 ^ 32 =
        rw (same2.mem (h.start - 4) early, same1.mem (h.start - 4) early) word in
      rw back (
        finish (coalesce (cleared h xs c ys p refl k) p) xs c.size ys p start k2
            (rw used at (Separated-suffix true xs c ys apart)) (rw same2.start still),
        release-Separated xs c ys used apart,
      )
