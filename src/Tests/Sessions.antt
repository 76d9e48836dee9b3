-- ===== src/Tests/Sessions.antt =====
-- A program that asks the allocator for 16 bytes, and gives them back.
use cs_261_basics_of_compute.Prelude.{
  ℕ, ◌≡◌, refl, ◌⊎◌, false, not, ◌&&◌, ◌||◌, ◌==◌, if◌then◌else◌, arith,
}
use cs_261_basics_of_compute.Heap.Layout.{
  Heap, firstfit, null, is_within_heap_range, block_is_in_use, get_next_block, get_block_size,
}
use cs_261_basics_of_compute.Heap.Search.{
  ok, find_fit, get_size_to_allocate, prepare_block_for_use, malloc_first_fit, malloc_with,
  heap_malloc,
}
use cs_261_basics_of_compute.Heap.Release.{heap_free}
use cs_261_basics_of_compute.Heap.Prepare.{IsRequest}
use cs_261_basics_of_compute.Heap.Words.{Words}
use cs_261_basics_of_compute.Heap.Session.{
  Tidy, Live, Session, opened, requested, given_back, Orderly,
}
use cs_261_basics_of_compute.Heap.Orderly.{Session-Orderly}
use cs_261_basics_of_compute.Tests.Allocator.{
  words, three, heap, heap-Holds, three-Separated, served_heap,
}

words-Words : Words words
words-Words x = ground arith

heap-Tidy : Tidy 13 (heap firstfit)
heap-Tidy = record {
  blocks = three;
  holds = heap-Holds firstfit;
  apart = three-Separated;
  words = words-Words;
  policy = λ e. cc;
  room = omega arith;
}

grants : heap_malloc null 13 (heap firstfit) 16 ≡ ok (1024, served_heap)
unfolding heap_malloc malloc_with malloc_first_fit find_fit is_within_heap_range block_is_in_use
    get_next_block get_block_size get_size_to_allocate prepare_block_for_use
grants = refl

-- What is held at the end.
abbrev held : Live
held q = not (q == 1024) && (if q == null then false else (q == 1024) || false)

session : Session 13 (heap firstfit) (heap_free served_heap 1024) held
session = given_back 1024 (requested 16 opened (refl, omega arith) grants) refl

Session-Orderly_example :
    Orderly 13 (heap_free served_heap 1024) held
    × ((user_size : ℕ)
        → IsRequest user_size
        → (q : ℕ × Heap) × (heap_malloc null 13 (heap_free served_heap 1024) user_size ≡ ok q)
          × ((q.0 ≡ null) ⊎ (held q.0 ≡ false)))
Session-Orderly_example =
    Session-Orderly 13 (heap firstfit) (heap_free served_heap 1024) held heap-Tidy session
