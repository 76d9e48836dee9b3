-- ===== src/Heap/Created.antt =====
-- The heap that `heap_create` of lab5/implicit.c sets up.
use cs_261_basics_of_compute.Prelude.{
  ℕ, ◌+◌, ◌-◌, ◌%◌, ◌^◌, ◌≤◌, ◌<◌, ◌≡◌, refl, false, some, [], ◌∷◌, arith,
}
use cs_261_basics_of_compute.Heap.Layout.{SearchAlg, Heap, u32, ptr_add, ptr_sub, set_block_header}
use cs_261_basics_of_compute.Heap.Create.{sizeof_heap, alignment_delta, heap_create}
use cs_261_basics_of_compute.Heap.Chain.{free_block, Holds, set_block_header-IsBlock}

-- A new heap: one free block, inside the granted memory, that wastes less than 14 bytes of it.
pub record IsFresh (brk size : ℕ) (alg : SearchAlg) (h : Heap) : Type 0 where
  pub holds : Holds h (free_block h.size ∷ [])
  pub next : h.next ≡ h.start
  pub search_alg : h.search_alg ≡ alg
  pub after : brk + sizeof_heap ≤ h.start
  pub inside : h.start + h.size ≤ brk + size
  pub waste : size < h.size + sizeof_heap + 15

alignment_delta_lem : (a : ℕ) → ((a + alignment_delta a) % 8 ≡ 4) × (alignment_delta a < 8)
unfolding alignment_delta
alignment_delta_lem a = ground arith

module _ (brk size : ℕ) (mem : ℕ → ℕ) (alg : SearchAlg) (large : 64 ≤ size) (small : size < 2 ^ 31)
    (below : brk + size < 2 ^ 63) where
  -- If `sbrk` grants at least 64 bytes, fewer than 2^31, below the middle of the address space,
  -- `heap_create` returns a heap that consists of one free block.
  pub heap_create-IsFresh :
      (h : Heap) × (heap_create (some (brk, mem)) size alg ≡ some h) × IsFresh brk size alg h
  unfolding heap_create
  heap_create-IsFresh =
      let delta : ℕ = alignment_delta (brk + 32) in
      let d = alignment_delta_lem (brk + 32) in
      let n1 : ℕ = size - 32 - delta in
      let n : ℕ = n1 - (n1 - 8) % 8 in
      let s : ℕ = brk + 32 + delta in
      let e1 : ptr_add brk 32 ≡ brk + 32 = omega arith in
      let e2 : ptr_sub size 32 ≡ size - 32 = omega arith in
      let e3 : ptr_add (brk + 32) delta ≡ s = omega arith in
      let e4 : ptr_sub (size - 32) delta ≡ n1 = omega arith in
      let e5 : ptr_sub n1 8 ≡ n1 - 8 = omega arith in
      let e6 : ptr_sub n1 ((n1 - 8) % 8) ≡ n = omega arith in
      let e7 : u32 n ≡ n = omega arith in
      let new = set_block_header-IsBlock mem s n false (omega arith) (omega arith) (omega arith) in
      (
        record {
          search_alg = alg;
          size = n;
          next = s;
          start = s;
          mem = set_block_header mem s n 0;
        },
        rw (e1, e2, e3, e4, e5, e6, e7),
        record {
          holds = record {
            region = record { aligned = d.0; small = omega arith; below = omega arith };
            chain = (new, refl);
          };
          next = refl;
          search_alg = refl;
          after = omega arith;
          inside = omega arith;
          waste = omega arith;
        },
      )
