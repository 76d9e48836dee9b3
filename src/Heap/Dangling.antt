-- ===== src/Heap/Dangling.antt =====
-- Where lab5/implicit.c breaks its own heap: a next-fit pointer into the middle of a block, a request
-- that is no multiple of eight, and one whose block size overflows.
use cs_261_basics_of_compute.Prelude.{
  ℕ, zero, suc, ◌+◌, ◌-◌, ◌*◌, ◌%◌, ◌^◌, ◌≤◌, ◌<◌, ◌≡◌, refl, ◌≢◌, ◌⊎◌, true, false, ◌||◌, List, [],
  ◌∷◌, ◌++◌, arith, ltb, leb, ◌==◌, Bool-cases, inl, inr, ◌∙◌, length,
}
use cs_261_basics_of_compute.Prelude.Store.{write, write_self, write_ne}
use cs_261_basics_of_compute.Heap.Layout.{
  Heap, u32, ptr_add, set_block_header, header_value, get_payload, get_payload_size, get_block_size,
  block_is_in_use, get_next_block, is_within_heap_range,
}
use cs_261_basics_of_compute.Heap.Search.{
  ok, undefined, out_of_fuel, get_size_to_allocate, prepare_block_for_use, find_fit,
  malloc_first_fit,
}
use cs_261_basics_of_compute.Heap.Release.{coalesce}
use cs_261_basics_of_compute.Heap.Chain.{
  Block, free_block, Chain, Region, Holds, span, Chain-split, Chain-span, block_is_in_use-IsBlock,
  get_block_size-IsBlock,
}
use cs_261_basics_of_compute.Heap.Merge.{merge}
use cs_261_basics_of_compute.Heap.Fit.{block_within, next_of_Chain}
use cs_261_basics_of_compute.Heap.Coalesce.{coalesce-merge, joined_next}

-- `next` is the address of a block, or the end of the region.
abbrev pub Boundary : Heap → List Block → Type 0
Boundary h bs =
    (us : List Block) × (vs : List Block) × (bs ≡ us ++ vs) × (h.next ≡ h.start + span us)

-- A prefix of a list of blocks ends before a block or behind it.
prefix_span :
    (xs us vs : List Block) (m : Block) (ys : List Block)
    → xs ++ m ∷ ys ≡ us ++ vs
    → (span us ≤ span xs) ⊎ (span xs + m.size ≤ span us)
prefix_span xs [] vs m ys e = inl (omega arith)
prefix_span [] (u ∷ us) vs m ys e = let same : m ≡ u = cc in inr (ground arith)
prefix_span (x ∷ xs) (u ∷ us) vs m ys e =
    let same : x ≡ u = cc in
    let rest : xs ++ m ∷ ys ≡ us ++ vs = cc in ground (arith, prefix_span xs us vs m ys rest)

merge_idle :
    (c d : Block) (ys : List Block)
    → c.used ≡ false
    → d.used ≡ false
    → merge c (d ∷ ys) ≡ free_block (c.size + d.size) ∷ ys
unfolding merge
merge_idle c d ys idle idle' = rw (idle, idle') refl

module _ (h : Heap) (xs : List Block) (c d : Block) (ys : List Block)
    (k : Holds h (xs ++ c ∷ d ∷ ys)) (idle : c.used ≡ false) (idle' : d.used ≡ false)
    (points : h.next ≡ h.start + span xs + c.size) where
  -- If the next-fit pointer stands at a free block behind a free one, `coalesce` at the first of them
  -- merges the two into one block, whose size is the sum of theirs, and leaves the pointer where it
  -- is, which then is neither at a block nor at the end of the region.
  pub coalesce_dangles :
      Holds (coalesce h (h.start + span xs)) (xs ++ free_block (c.size + d.size) ∷ ys)
      × ((coalesce h (h.start + span xs)).next ≡ h.next)
      × ¬ Boundary (coalesce h (h.start + span xs)) (xs ++ free_block (c.size + d.size) ∷ ys)
  coalesce_dangles =
      let p : ℕ = h.start + span xs in
      let here = (Chain-split h.mem h.start (h.start + h.size) xs (c ∷ d ∷ ys) k.chain).1 in
      let shape = here.0.shape in
      let shape' = here.1.0.shape in
      let stays : (coalesce h p).next ≡ h.next =
        joined_next h xs c d ys p refl k idle idle' (omega arith) in
      let (holds, kept) = coalesce-merge h xs c (d ∷ ys) p refl k in
      let start : (coalesce h p).start ≡ h.start = kept.start in
      (
        rw (merge_idle c d ys idle idle') at holds,
        stays,
        λ (us, vs, parts, at_us).
            let around = prefix_span xs us vs (free_block (c.size + d.size)) ys parts in
            omega arith,
      )

-- A request that is no multiple of eight runs off the end of `get_size_to_allocate`, as soon as the
-- search meets a free block.
abbrev pub SomeFree : List Block → Type 0
SomeFree [] = ⊥
SomeFree (b ∷ bs) = (b.used ≡ false) ⊎ SomeFree bs

find_fit_odd :
    (h : Heap) (region : Region h) (user_size k a : ℕ) (bs : List Block)
    → user_size % 8 ≢ 0
    → SomeFree bs
    → h.start ≤ a
    → Chain h.mem a bs (h.start + h.size)
    → length bs < k
    → find_fit k h user_size a ≡ undefined
unfolding find_fit get_size_to_allocate
find_fit_odd h region u zero a bs odd s lo c fuel = absurd (omega arith)
find_fit_odd h region u (suc k) a [] odd s lo c fuel = absurd s
find_fit_odd h region u (suc k) a (b ∷ bs) odd s lo (i, c) fuel =
    let test : (u % 8 == 0) ≡ false = ground arith in
    rw
      (
        block_within h region a b bs lo (i, c),
        next_of_Chain h region a b bs (i, c),
        block_is_in_use-IsBlock h.mem a b i,
        test,
      )
      (elim (Bool-cases b.used) [
        | inr idle ↦ rw idle
        | inl busy ↦
            let more : SomeFree bs = elim s [ inl e ↦ absurd (ground arith) | inr t ↦ t ] in
            rw (
              busy,
              find_fit_odd h region u k (a + b.size) bs odd more (omega arith) c (omega arith),
            )
      ])

-- With a free block in the heap, a request that is no multiple of eight has no defined result.
pub malloc_first_fit_odd :
    (h : Heap) (bs : List Block) (user_size fuel : ℕ)
    → Holds h bs
    → SomeFree bs
    → user_size % 8 ≢ 0
    → length bs < fuel
    → malloc_first_fit fuel h user_size ≡ undefined
unfolding malloc_first_fit
malloc_first_fit_odd h bs u fuel k s odd enough =
    rw (find_fit_odd h k.region u fuel h.start bs odd s (omega arith) k.chain enough)

-- A request of 2^32 - 8 bytes, whose block size overflows to zero.
abbrev pub huge : ℕ
huge = 2 ^ 32 - 8

-- A header of size zero: its second copy goes 2^32 - 4 bytes behind the first.
zero_header :
    (m : ℕ → ℕ) (a : ℕ)
    → a < 2 ^ 63
    → (set_block_header m a 0 1 a ≡ 1) × (set_block_header m a 0 1 (a + 2 ^ 32 - 4) ≡ 1)
unfolding set_block_header get_payload get_payload_size
zero_header m a below =
    let one : header_value 0 1 ≡ 1 = unfold header_value in refl in
    let place : ptr_add (ptr_add a 4) (u32 (1 - 1 % 4 + 2 ^ 32 - 8)) ≡ a + 2 ^ 32 - 4 =
      omega arith in
    (
      rw (one, write_self m a 1) (write_ne (write m a 1) _ 1 a (omega arith) ∙ write_self m a 1),
      rw (one, write_self m a 1, place) (write_self (write m a 1) (a + 2 ^ 32 - 4) 1),
    )

-- On a used block of size zero the loop of a search does not advance.
find_fit_stuck :
    (h : Heap)
    → h.mem h.start ≡ 1
    → is_within_heap_range h h.start ≡ true
    → get_next_block h.mem h.start ≡ h.start
    → (k user_size : ℕ) → find_fit k h user_size h.start ≡ out_of_fuel
unfolding find_fit
find_fit_stuck h one within next zero u = refl
find_fit_stuck h one within next (suc k) u =
    let busy : block_is_in_use h.mem h.start ≡ true = unfold block_is_in_use in rw one in
    rw (within, busy, next) (find_fit_stuck h one within next k u)

-- With a free first block, that request returns the payload of this block and writes for it a header of
-- size zero, whose second copy goes 2^32 - 4 bytes behind the first, outside of the region, where C
-- leaves a write undefined. If the program survives that, no later search that begins at the start
-- ends, whatever it looks for.
pub malloc_first_fit-huge :
    (h : Heap) (c : Block) (ys : List Block) (fuel : ℕ)
    → Holds h (c ∷ ys)
    → c.used ≡ false
    → 0 < fuel
    → (h' : Heap) × (malloc_first_fit fuel h huge ≡ ok (h.start + 4, h'))
      × (h'.mem h.start ≡ 1)
      × (h'.mem (h.start + 2 ^ 32 - 4) ≡ 1)
      × (h.start + h.size < h.start + 2 ^ 32 - 4)
      × ((k user_size : ℕ) → find_fit k h' user_size h'.start ≡ out_of_fuel)
unfolding malloc_first_fit find_fit prepare_block_for_use get_size_to_allocate
malloc_first_fit-huge h c ys zero k idle some_fuel = absurd (omega arith)
malloc_first_fit-huge h c ys (suc f) k idle some_fuel =
    let below = k.region.below in
    let i = k.chain.0 in
    let shape = i.shape in
    let past = Chain-span h.mem h.start (h.start + h.size) (c ∷ ys) k.chain in
    let within = block_within h k.region h.start c ys (omega arith) k.chain in
    let cell : ptr_add h.start 4 ≡ h.start + 4 = omega arith in
    let large : ltb (u32 (0 + 128)) c.size || ltb (u32 (0 * 2)) c.size ≡ true = ground arith in
    let least : leb (u32 (huge + 2 * 4)) c.size ≡ true = ground arith in
    let mem' =
      set_block_header (set_block_header h.mem (ptr_add h.start 0) (u32 (c.size + 2 ^ 32 - 0)) 0)
        h.start 0 1 in
    let split = set_block_header h.mem (ptr_add h.start 0) (u32 (c.size + 2 ^ 32 - 0)) 0 in
    let (one, behind) = zero_header split h.start (omega arith) in
    let next : get_next_block mem' h.start ≡ h.start =
      unfold get_next_block get_block_size in rw one (omega arith) in
    (
      record h { mem = mem' },
      rw (
        within,
        block_is_in_use-IsBlock h.mem h.start c i,
        get_block_size-IsBlock h.mem h.start c i,
        idle,
        least,
        get_block_size-IsBlock h.mem h.start c i,
        large,
        cell,
      ),
      one,
      behind,
      omega (arith, k.region.small),
      find_fit_stuck (record h { mem = mem' }) one (unfold is_within_heap_range in within) next,
    )
