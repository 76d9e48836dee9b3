-- ===== src/Heap/Measured.antt =====
-- The walks over the whole heap against the list of blocks.
use cs_261_basics_of_compute.Prelude.{
  lt→ltb, ℕ, zero, suc, ◌+◌, ◌/◌, ◌^◌, ◌≤◌, ◌<◌, ◌≡◌, List, [], ◌∷◌, arith, ◌==◌, if◌then◌else◌,
  length, Bool-cases, inl, inr,
}
use cs_261_basics_of_compute.Heap.Layout.{Heap, u32}
use cs_261_basics_of_compute.Heap.Search.{ok, undefined}
use cs_261_basics_of_compute.Heap.Chain.{
  Block, Chain, Region, Holds, span, Chain-span, block_is_in_use-IsBlock, get_block_size-IsBlock,
}
use cs_261_basics_of_compute.Heap.Fit.{end_outside, block_within, next_of_Chain}
use cs_261_basics_of_compute.Heap.Survey.{
  Entry, print_loop, heap_print, avg_loop, int_div, heap_find_avg_free_block_size,
}

-- The lines of a list of blocks that begins at `a`.
unfoldable pub entries_of : ℕ → List Block → List Entry
entries_of a [] = []
entries_of a (b ∷ bs) =
    record { address = a; size = b.size; in_use = b.used } ∷ entries_of (a + b.size) bs

-- The number of free blocks, and their total size.
unfoldable pub free_count : List Block → ℕ
free_count [] = 0
free_count (b ∷ bs) = (if b.used then 0 else 1) + free_count bs

unfoldable pub free_total : List Block → ℕ
free_total [] = 0
free_total (b ∷ bs) = (if b.used then 0 else b.size) + free_total bs

free_total-le : (bs : List Block) → free_total bs ≤ span bs
unfolding free_total
free_total-le [] = omega arith
free_total-le (b ∷ bs) = ground (arith, free_total-le bs)

free_count-le : (m : ℕ → ℕ) (a e : ℕ) (bs : List Block) → Chain m a bs e → free_count bs ≤ span bs
unfolding free_count
free_count-le m a e [] c = omega arith
free_count-le m a e (b ∷ bs) (i, c) =
    let shape = i.shape in ground (arith, free_count-le m (a + b.size) e bs c)

int_div_small : (a b : ℕ) → a < 2 ^ 31 → b < 2 ^ 31 → int_div a b ≡ a / b
unfolding int_div
int_div_small a b p q = rw (lt→ltb a (2 ^ 31) p, lt→ltb b (2 ^ 31) q)

module _ (h : Heap) (region : Region h) where
  print_loop-entries_of :
      (k a : ℕ) (bs : List Block)
      → h.start ≤ a
      → Chain h.mem a bs (h.start + h.size)
      → length bs < k
      → print_loop k h a ≡ ok (entries_of a bs)
  unfolding print_loop entries_of
  print_loop-entries_of zero a bs lo c fuel = absurd (omega arith)
  print_loop-entries_of (suc k) a [] lo c fuel = rw (c, end_outside h region)
  print_loop-entries_of (suc k) a (b ∷ bs) lo (i, c) fuel = rw (
    block_within h region a b bs lo (i, c),
    next_of_Chain h region a b bs (i, c),
    block_is_in_use-IsBlock h.mem a b i,
    get_block_size-IsBlock h.mem a b i,
    print_loop-entries_of k (a + b.size) bs (omega arith) c (omega arith),
  )

  avg_loop-totals :
      (k size num a : ℕ) (bs : List Block)
      → h.start ≤ a
      → Chain h.mem a bs (h.start + h.size)
      → length bs < k
      → size + span bs < 2 ^ 31
      → num + span bs < 2 ^ 31
      → avg_loop k h size num a ≡ ok (size + free_total bs, num + free_count bs)
  unfolding avg_loop free_total free_count
  avg_loop-totals zero size num a bs lo c fuel p q = absurd (omega arith)
  avg_loop-totals (suc k) size num a [] lo c fuel p q = rw (c, end_outside h region) (ground arith)
  avg_loop-totals (suc k) size num a (b ∷ bs) lo (i, c) fuel p q =
      rw
        (
          block_within h region a b bs lo (i, c),
          next_of_Chain h region a b bs (i, c),
          block_is_in_use-IsBlock h.mem a b i,
          get_block_size-IsBlock h.mem a b i,
        )
        (elim (Bool-cases b.used) [
          | inl busy ↦ rw busy (
              ground (
                arith,
                avg_loop-totals k size num (a + b.size) bs (omega arith) c (omega arith)
                    (omega arith) (omega arith),
              ))
          | inr idle ↦
              let shape = i.shape in
              let e1 : u32 (size + b.size) ≡ size + b.size = omega arith in
              let e2 : u32 (num + 1) ≡ num + 1 = omega arith in
              rw (idle, e1, e2)
                (ground (
                  arith,
                  avg_loop-totals k (size + b.size) (num + 1) (a + b.size) bs (omega arith) c
                      (omega arith) (omega arith) (omega arith),
                ))
        ])

module _ (h : Heap) (bs : List Block) (fuel : ℕ) (k : Holds h bs) (enough : length bs < fuel) where
  -- `heap_print` prints one entry for each block, in order.
  pub heap_print-entries_of : heap_print fuel h ≡ ok (entries_of h.start bs)
  unfolding heap_print
  heap_print-entries_of =
      print_loop-entries_of h k.region fuel h.start bs (omega arith) k.chain enough

  -- The average is that of the free blocks; with no free block the code divides by zero.
  pub heap_find_avg_free_block_size_lem :
      heap_find_avg_free_block_size fuel h
      ≡ (if free_count bs == 0 then undefined else ok (free_total bs / free_count bs))
  unfolding heap_find_avg_free_block_size
  heap_find_avg_free_block_size_lem =
      let small = k.region.small in
      let past = Chain-span h.mem h.start (h.start + h.size) bs k.chain in
      let t : free_total bs < 2 ^ 31 = omega (arith, free_total-le bs) in
      let n : free_count bs < 2 ^ 31 =
        omega (arith, free_count-le h.mem h.start (h.start + h.size) bs k.chain) in
      ground (
        arith,
        avg_loop-totals h k.region fuel 0 0 h.start bs (omega arith) k.chain enough (omega arith)
            (omega arith),
        int_div_small (free_total bs) (free_count bs) t n,
      )
