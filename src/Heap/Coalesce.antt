-- ===== src/Heap/Coalesce.antt =====
-- `coalesce` of lab5/implicit.c, lines 92 to 118, on a heap that holds a list of blocks.
use cs_261_basics_of_compute.Prelude.{
  ℕ, ◌+◌, ◌≤◌, ◌<◌, ◌≡◌, ◌≢◌, refl, true, false, ◌||◌, ◌&&◌, List, [], ◌∷◌, ◌++◌, arith,
  if◌then◌else◌, Bool-cases, inl, inr, ap, ◌∙◌, ◌==◌,
}
use cs_261_basics_of_compute.Heap.Layout.{
  Heap, u32, set_block_header, get_next_block, is_within_heap_range,
}
use cs_261_basics_of_compute.Heap.Release.{coalesce, is_nextfit}
use cs_261_basics_of_compute.Heap.Chain.{
  Block, free_block, Chain, Holds, span, Chain-split, Chain-span, block_is_in_use-IsBlock,
  get_block_size-IsBlock, set_block_header-IsBlock, set_block_header_frame,
}
use cs_261_basics_of_compute.Heap.Prepare.{with_mem, Holds-replace}
use cs_261_basics_of_compute.Heap.Fit.{end_outside, block_within, next_of_Chain}
use cs_261_basics_of_compute.Heap.Merge.{merge}

-- `h'` is `h` but for words from `lo` on, and for `next`.
pub record Kept (h h' : Heap) (lo : ℕ) : Type 0 where
  pub start : h'.start ≡ h.start
  pub size : h'.size ≡ h.size
  pub search_alg : h'.search_alg ≡ h.search_alg
  pub mem : (x : ℕ) → x < lo → h'.mem x ≡ h.mem x

Kept-refl : (h : Heap) (lo : ℕ) → Kept h h lo
Kept-refl h lo = record { start = refl; size = refl; search_alg = refl; mem = λ x p. refl }

-- Outside the region nothing is merged.
pub coalesce_outside : (h : Heap) (b : ℕ) → is_within_heap_range h b ≡ false → coalesce h b ≡ h
unfolding coalesce
coalesce_outside h b e = rw e

module _ (h : Heap) (xs : List Block) (c d : Block) (ys : List Block) (p : ℕ)
    (e : p ≡ h.start + span xs) (k : Holds h (xs ++ c ∷ d ∷ ys)) (idle : c.used ≡ false)
    (idle' : d.used ≡ false) where
  merged : ℕ → ℕ
  merged = set_block_header h.mem p (c.size + d.size) 0

  -- Two free neighbours.
  coalesce-writes : coalesce h p ≡ record h {
    mem = merged;
    next = if (h.next == get_next_block merged p) && is_nextfit h.search_alg then p else h.next;
  }
  unfolding coalesce merged
  coalesce-writes =
      let here : Chain h.mem p (c ∷ d ∷ ys) (h.start + h.size) =
        rw (← e) at (Chain-split h.mem h.start (h.start + h.size) xs (c ∷ d ∷ ys) k.chain).1 in
      let lo : h.start ≤ p = omega arith in
      let small = k.region.small in
      let past = Chain-span h.mem p (h.start + h.size) (c ∷ d ∷ ys) here in
      let total : u32 (c.size + d.size) ≡ c.size + d.size = omega arith in
      rw (
        next_of_Chain h k.region p c (d ∷ ys) here,
        block_within h k.region p c (d ∷ ys) lo here,
        block_within h k.region (p + c.size) d ys (omega arith) here.1,
        block_is_in_use-IsBlock h.mem p c here.0,
        block_is_in_use-IsBlock h.mem (p + c.size) d here.1.0,
        get_block_size-IsBlock h.mem p c here.0,
        get_block_size-IsBlock h.mem (p + c.size) d here.1.0,
        idle,
        idle',
        total,
      )

  merged-Holds : Holds (with_mem h merged) (xs ++ free_block (c.size + d.size) ∷ ys)
  unfolding merged
  merged-Holds =
      let here : Chain h.mem p (c ∷ d ∷ ys) (h.start + h.size) =
        rw (← e) at (Chain-split h.mem h.start (h.start + h.size) xs (c ∷ d ∷ ys) k.chain).1 in
      let small = k.region.small in
      let below = k.region.below in
      let past = Chain-span h.mem p (h.start + h.size) (c ∷ d ∷ ys) here in
      let shape = here.0.shape in
      let shape' = here.1.0.shape in
      let i =
        set_block_header-IsBlock h.mem p (c.size + d.size) false (omega arith) (omega arith)
          (omega arith) in
      let frame =
        set_block_header_frame h.mem p (c.size + d.size) false (omega arith) (omega arith)
          (omega arith) in
      Holds-replace h merged xs (c ∷ d ∷ []) (free_block (c.size + d.size) ∷ []) ys k
        (λ x o. frame x (omega arith) (omega arith)) (rw (← e) (i, omega arith))

  merged_frame : (x : ℕ) → x < p → merged x ≡ h.mem x
  unfolding merged
  merged_frame x q =
      let here : Chain h.mem p (c ∷ d ∷ ys) (h.start + h.size) =
        rw (← e) at (Chain-split h.mem h.start (h.start + h.size) xs (c ∷ d ∷ ys) k.chain).1 in
      let small = k.region.small in
      let below = k.region.below in
      let past = Chain-span h.mem p (h.start + h.size) (c ∷ d ∷ ys) here in
      let shape = here.0.shape in
      let shape' = here.1.0.shape in
      set_block_header_frame h.mem p (c.size + d.size) false (omega arith) (omega arith)
        (omega arith) x (omega arith) (omega arith)

  -- The merged heap, as `coalesce` leaves it.
  joined : Holds (coalesce h p) (xs ++ free_block (c.size + d.size) ∷ ys) × Kept h (coalesce h p) p
  joined =
      let m = merged-Holds in
      rw coalesce-writes (
        record {
          region = record {
            aligned = k.region.aligned;
            small = k.region.small;
            below = k.region.below;
          };
          chain = m.chain;
        },
        record { start = refl; size = refl; search_alg = refl; mem = λ x q. merged_frame x q },
      )

  -- The test of `h->next` reads the new header, and so looks behind the merged block.
  pub joined_next : h.next ≢ p + (c.size + d.size) → (coalesce h p).next ≡ h.next
  joined_next ne =
      let m = merged-Holds in
      let here : Chain merged p (free_block (c.size + d.size) ∷ ys) (h.start + h.size) =
        rw (← e) at
          (Chain-split merged h.start (h.start + h.size) xs (free_block (c.size + d.size) ∷ ys)
            m.chain).1 in
      let next : get_next_block merged p ≡ p + (c.size + d.size) =
        next_of_Chain (with_mem h merged) m.region p (free_block (c.size + d.size)) ys here in
      let other : (h.next == p + (c.size + d.size)) ≡ false = ground arith in
      ap (λ (g : Heap). g.next) coalesce-writes ∙ rw (next, other)

-- Nothing behind the block, or one of the two in use.
pub coalesce_last :
    (h : Heap) (xs : List Block) (c : Block) (p : ℕ)
    → p ≡ h.start + span xs
    → Holds h (xs ++ c ∷ [])
    → coalesce h p ≡ h
unfolding coalesce
coalesce_last h xs c p e k =
    let here : Chain h.mem p (c ∷ []) (h.start + h.size) =
      rw (← e) at (Chain-split h.mem h.start (h.start + h.size) xs (c ∷ []) k.chain).1 in
    let next : get_next_block h.mem p ≡ h.start + h.size =
      next_of_Chain h k.region p c [] here ∙ here.1 in
    rw (block_within h k.region p c [] (omega arith) here, next, end_outside h k.region)

pub coalesce_busy :
    (h : Heap) (xs : List Block) (c d : Block) (ys : List Block) (p : ℕ)
    → p ≡ h.start + span xs
    → Holds h (xs ++ c ∷ d ∷ ys)
    → (c.used || d.used) ≡ true
    → coalesce h p ≡ h
unfolding coalesce
coalesce_busy h xs c d ys p e k busy =
    let here : Chain h.mem p (c ∷ d ∷ ys) (h.start + h.size) =
      rw (← e) at (Chain-split h.mem h.start (h.start + h.size) xs (c ∷ d ∷ ys) k.chain).1 in
    rw (
      next_of_Chain h k.region p c (d ∷ ys) here,
      block_within h k.region p c (d ∷ ys) (omega arith) here,
      block_within h k.region (p + c.size) d ys (omega arith) here.1,
      block_is_in_use-IsBlock h.mem p c here.0,
      block_is_in_use-IsBlock h.mem (p + c.size) d here.1.0,
      busy,
    )

-- `coalesce` at a block merges it with the one behind it, if both are free, and changes no word in
-- front of it.
pub coalesce-merge :
    (h : Heap) (xs : List Block) (c : Block) (ys : List Block) (p : ℕ)
    → p ≡ h.start + span xs
    → Holds h (xs ++ c ∷ ys)
    → Holds (coalesce h p) (xs ++ merge c ys) × Kept h (coalesce h p) p
unfolding merge
coalesce-merge h xs c [] p e k = rw (coalesce_last h xs c p e k) (k, Kept-refl h p)
coalesce-merge h xs c (d ∷ ys) p e k = elim (Bool-cases (c.used || d.used)) [
  | inl busy ↦ simp (coalesce_busy h xs c d ys p e k busy, busy) (k, Kept-refl h p)
  | inr idle ↦ simp idle (joined h xs c d ys p e k (ground arith) (ground arith))
]
