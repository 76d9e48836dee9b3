-- ===== src/Heap/Release.antt =====
-- `coalesce` and `heap_free` of lab5/implicit.c, lines 92 to 118 and 227 to 238.
use cs_261_basics_of_compute.Prelude.{
  ℕ, ◌+◌, Bool, ◌||◌, ◌&&◌, not, true, false, ◌==◌, if◌then◌else◌,
}
use cs_261_basics_of_compute.Heap.Layout.{
  SearchAlg, nextfit, Heap, u32, block_is_in_use, get_block_size, get_block_start, set_block_header,
  get_next_block, get_previous_block, is_within_heap_range,
}

abbrev pub is_nextfit : SearchAlg → Bool
is_nextfit nextfit = true
is_nextfit _ = false

-- The block behind `b` is looked up again after the header of `b` has been rewritten, as in the
-- source. The returned pointer is always `b`.
unfoldable pub coalesce : Heap → ℕ → Heap
coalesce h b =
    if not (is_within_heap_range h b) || not (is_within_heap_range h (get_next_block h.mem b))
    then h
    else if block_is_in_use h.mem b || block_is_in_use h.mem (get_next_block h.mem b)
    then h
    else (let total =
          u32 (get_block_size h.mem b + get_block_size h.mem (get_next_block h.mem b)) in
        let mem' = set_block_header h.mem b total 0 in
        record h {
          mem = mem';
          next = if (h.next == get_next_block mem' b) && is_nextfit h.search_alg then b else h.next;
        })

unfoldable pub heap_free : Heap → ℕ → Heap
heap_free h payload =
    let start = get_block_start payload in
    let h1 = record h { mem = set_block_header h.mem start (get_block_size h.mem start) 0 } in
    let h2 = coalesce h1 start in coalesce h2 (get_previous_block h2.mem start)
