-- ===== src/Heap/Create.antt =====
-- `heap_create` of lab5/implicit.c, lines 149 to 181.
use cs_261_basics_of_compute.Prelude.{ℕ, ◌+◌, ◌-◌, ◌*◌, ◌%◌, Option, none, some, leb, if◌then◌else◌}
use cs_261_basics_of_compute.Heap.Layout.{
  SearchAlg, Heap, header_size, payload_align, u32, ptr_add, ptr_sub, set_block_header,
}

-- `sizeof(heap)` with 64-bit pointers: a 4-byte enumeration, padding, and three words of 8 bytes.
abbrev pub sizeof_heap : ℕ
sizeof_heap = 32

-- `PAYLOAD_ALIGN - HEADER_SIZE - start % PAYLOAD_ALIGN` as an `int`, made non-negative.
unfoldable pub alignment_delta : ℕ → ℕ
alignment_delta start =
    let r = start % payload_align in
    if leb r (payload_align - header_size)
    then payload_align - header_size - r
    else payload_align + (payload_align - header_size) - r

-- `sbrk` is what the system call returns, `none` for its error value, with the words of the memory
-- that it grants.
unfoldable pub heap_create : Option (ℕ × (ℕ → ℕ)) → ℕ → SearchAlg → Option Heap
heap_create none size alg = none
heap_create (some (brk, mem)) size alg =
    let start0 = ptr_add brk sizeof_heap in
    let size0 = ptr_sub size sizeof_heap in
    let delta = alignment_delta start0 in
    let start = ptr_add start0 delta in
    let size1 = ptr_sub size0 delta in
    let size2 = ptr_sub size1 (ptr_sub size1 (2 * header_size) % payload_align) in
    some (record {
      search_alg = alg;
      size = size2;
      next = start;
      start = start;
      mem = set_block_header mem start (u32 size2) 0;
    })
