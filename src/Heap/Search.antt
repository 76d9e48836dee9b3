-- ===== src/Heap/Search.antt =====
-- `heap_malloc` of lab5/implicit.c and the three searches behind it, lines 120 to 144 and 240 to 335.
use cs_261_basics_of_compute.Prelude.{
  ℕ, zero, suc, ◌+◌, ◌-◌, ◌*◌, ◌%◌, ◌^◌, Bool, ◌||◌, ◌&&◌, Option, none, some, ltb, leb, ◌==◌,
  if◌then◌else◌,
}
pub use cs_261_basics_of_compute.Prelude.Run.{Run, ok, undefined, out_of_fuel, ◌>>=◌}
use cs_261_basics_of_compute.Heap.Layout.{
  SearchAlg, firstfit, nextfit, bestfit, Heap, header_size, max_unused_bytes, null, u32, ptr_add,
  block_is_in_use, get_block_size, get_block_start, set_block_header, get_next_block,
  is_within_heap_range,
}

-- If the size is no multiple of eight, control reaches the end of the function with no `return`,
-- and the caller uses a value that is not there.
unfoldable pub get_size_to_allocate : ℕ → Run ℕ
get_size_to_allocate user_size =
    if user_size % 8 == 0 then ok (u32 (user_size + 2 * header_size)) else undefined

-- The pointer that is returned, and the heap.
unfoldable pub prepare_block_for_use : Heap → ℕ → ℕ → Run (ℕ × Heap)
prepare_block_for_use h b real_size = do
  need ← get_size_to_allocate real_size
  let bs = get_block_size h.mem b
  if ltb (u32 (need + max_unused_bytes)) bs || ltb (u32 (need * 2)) bs
      then ok (
        ptr_add b header_size,
        record h {
          mem =
              set_block_header
                (set_block_header h.mem (ptr_add b need) (u32 (bs + 2 ^ 32 - need)) 0) b need 1;
        },
      )
      else ok (ptr_add b header_size, record h { mem = set_block_header h.mem b bs 1 })

-- The `while` loop of the first-fit search, which next fit runs twice. The result is the block that
-- is taken, if there is one.
unfoldable pub find_fit : ℕ → Heap → ℕ → ℕ → Run (Option ℕ)
find_fit zero h user_size current = out_of_fuel
find_fit (suc k) h user_size current =
    let rest = find_fit k h user_size (get_next_block h.mem current) in
    if is_within_heap_range h current
    then (if block_is_in_use h.mem current then rest else do
      need ← get_size_to_allocate user_size
      if leb need (get_block_size h.mem current) then ok (some current) else rest)
    else ok none

unfoldable pub malloc_first_fit : ℕ → Heap → ℕ → Run (ℕ × Heap)
malloc_first_fit fuel h user_size = do
  found ← find_fit fuel h user_size h.start
  elim found [ none ↦ ok (null, h) | some b ↦ prepare_block_for_use h b user_size ]

-- `void *result = prepare_block_for_use(...); h->next = get_block_start(result);`
unfoldable pub take_and_advance : Heap → ℕ → ℕ → Run (ℕ × Heap)
take_and_advance h b user_size = do
  (result, h') ← prepare_block_for_use h b user_size
  ok (result, record h' { next = get_block_start result })

unfoldable pub malloc_next_fit : ℕ → Heap → ℕ → Run (ℕ × Heap)
malloc_next_fit fuel h user_size = do
  found ← find_fit fuel h user_size h.next
  elim found [
    | some b ↦ take_and_advance h b user_size
    | none ↦ do
      again ← find_fit fuel h user_size h.start
      elim again [ none ↦ ok (null, h) | some b ↦ take_and_advance h b user_size ]
  ]

-- `a <= b` for two `int`, held as 32-bit patterns.
unfoldable pub int_le : ℕ → ℕ → Bool
int_le a b = leb (u32 (a + 2 ^ 31)) (u32 (b + 2 ^ 31))

-- The loop of the best-fit search, with its two variables.
unfoldable pub find_best : ℕ → Heap → ℕ → (smallest_difference best_block current : ℕ) → Run ℕ
find_best zero h user_size smallest best current = out_of_fuel
find_best (suc k) h user_size smallest best current =
    let next = get_next_block h.mem current in
    let skip = find_best k h user_size smallest best next in
    if is_within_heap_range h current
    then (if block_is_in_use h.mem current then skip else do
      need ← get_size_to_allocate user_size
      let this_difference = u32 (get_block_size h.mem current + 2 ^ 32 - need)
      let better = find_best k h user_size this_difference current next
      if leb need (get_block_size h.mem current) && int_le this_difference smallest
          then better
          else skip)
    else ok best

-- The source assigns to `best_block` and declares it nowhere, so the file does not compile as it
-- stands; `best_block` is here the value that the variable has at the start.
unfoldable pub malloc_best_fit : (best_block fuel : ℕ) → Heap → ℕ → Run (ℕ × Heap)
malloc_best_fit best_block fuel h user_size = do
  best ← find_best fuel h user_size (u32 h.size) best_block h.start
  if best == null then ok (null, h) else prepare_block_for_use h best user_size

-- `switch (h->search_alg)`.
unfoldable pub malloc_with : SearchAlg → (best_block fuel : ℕ) → Heap → ℕ → Run (ℕ × Heap)
malloc_with firstfit best_block fuel h size = malloc_first_fit fuel h size
malloc_with nextfit best_block fuel h size = malloc_next_fit fuel h size
malloc_with bestfit best_block fuel h size = malloc_best_fit best_block fuel h size

-- `heap_malloc`, with the fuel of its loops.
unfoldable pub heap_malloc : (best_block fuel : ℕ) → Heap → ℕ → Run (ℕ × Heap)
heap_malloc best_block fuel h size = malloc_with h.search_alg best_block fuel h size
