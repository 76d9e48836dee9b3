-- ===== src/Harness/Defs.antt =====
-- The main program of lab5/implicit-test.c, lines 46 to 117. What it prints on the way is left out.
-- `rand k` is what the call number `k` of `rand` returns.
use cs_261_basics_of_compute.Prelude.{
  ℕ, zero, suc, ◌+◌, ◌-◌, ◌%◌, ◌^◌, Option, none, some, ltb, ◌==◌, if◌then◌else◌,
}
use cs_261_basics_of_compute.Prelude.Run.{Run, ok, undefined, ◌>>=◌}
use cs_261_basics_of_compute.Prelude.Store.{write}
use cs_261_basics_of_compute.Heap.Layout.{Heap, firstfit, nextfit, bestfit, null}
use cs_261_basics_of_compute.Heap.Search.{heap_malloc}
use cs_261_basics_of_compute.Heap.Release.{heap_free}
use cs_261_basics_of_compute.Heap.Create.{heap_create}
use cs_261_basics_of_compute.Heap.Survey.{heap_find_avg_free_block_size}
use cs_261_basics_of_compute.Harness.Draw.{get_rand_block_size}

abbrev pub heap_size : ℕ
heap_size = 2 ^ 21

abbrev pub max_pointers : ℕ
max_pointers = 1000

abbrev op_count : ℕ
op_count = 50000

-- One of the three heaps, with its array.
pub record Trial : Type 0 where
  pub heap : Heap
  pub pointer_array : ℕ → ℕ

-- The variables of the loop, and the number of calls of `rand` so far.
pub record Locals : Type 0 where
  pub first : Trial
  pub next : Trial
  pub best : Trial
  pub nb_pointers : ℕ
  pub drawn : ℕ

-- `pointer_array[nb_pointers] = heap_malloc(h, size);`
unfoldable pub malloc_into : (best_block fuel size nb_pointers : ℕ) → Trial → Run Trial
malloc_into best_block fuel size nb_pointers t = do
  (p, h) ← heap_malloc best_block fuel t.heap size
  if ltb nb_pointers max_pointers
      then ok (record { heap = h; pointer_array = write t.pointer_array nb_pointers p })
      else undefined

-- `if (pointer_array[index]) heap_free(h, pointer_array[index]);`, and the last pointer takes the
-- place.
unfoldable pub free_at : (index last : ℕ) → Trial → Trial
free_at index last t =
    let p = t.pointer_array index in
    record {
      heap = if p == null then t.heap else heap_free t.heap p;
      pointer_array = write t.pointer_array index (t.pointer_array last);
    }

unfoldable pub allocate : (best_block fuel : ℕ) (rand : ℕ → ℕ) (drawn : ℕ) → Locals → Run Locals
allocate best_block fuel rand drawn s = do
  (size, drawn') ← get_rand_block_size rand drawn
  first ← malloc_into best_block fuel size s.nb_pointers s.first
  next ← malloc_into best_block fuel size s.nb_pointers s.next
  best ← malloc_into best_block fuel size s.nb_pointers s.best
  ok (record {
    first = first;
    next = next;
    best = best;
    nb_pointers = s.nb_pointers + 1;
    drawn = drawn';
  })

unfoldable pub release_one : (index drawn : ℕ) → Locals → Locals
release_one index drawn s =
    let last = s.nb_pointers - 1 in
    record {
      first = free_at index last s.first;
      next = free_at index last s.next;
      best = free_at index last s.best;
      nb_pointers = last;
      drawn = drawn;
    }

-- One round of the loop.
unfoldable pub operate : (best_block fuel : ℕ) (rand : ℕ → ℕ) → Locals → Run Locals
operate best_block fuel rand s =
    if s.nb_pointers == 0
    then allocate best_block fuel rand s.drawn s
    else if ltb s.nb_pointers (rand s.drawn % max_pointers)
    then allocate best_block fuel rand (s.drawn + 1) s
    else ok (release_one (rand (s.drawn + 1) % s.nb_pointers) (s.drawn + 2) s)

unfoldable pub main_loop : (best_block fuel : ℕ) (rand : ℕ → ℕ) (op_count : ℕ) → Locals → Run Locals
main_loop best_block fuel rand zero s = ok s
main_loop best_block fuel rand (suc op_count) s = do
  s' ← operate best_block fuel rand s
  main_loop best_block fuel rand op_count s'

-- A heap that was not made is NULL, and the first request follows it.
unfoldable pub made : Option Heap → (ℕ → ℕ) → Run Trial
made none pointers = undefined
made (some h) pointers = ok (record { heap = h; pointer_array = pointers })

-- What one heap gets from `sbrk`, and what its array holds at first.
pub record Grant : Type 0 where
  pub sbrk : Option (ℕ × (ℕ → ℕ))
  pub pointers : ℕ → ℕ

unfoldable pub set_up : (first next best : Grant) → Run Locals
set_up first next best = do
  first' ← made (heap_create first.sbrk heap_size firstfit) first.pointers
  next' ← made (heap_create next.sbrk heap_size nextfit) next.pointers
  best' ← made (heap_create best.sbrk heap_size bestfit) best.pointers
  ok (record { first = first'; next = next'; best = best'; nb_pointers = 0; drawn = 0 })

-- The three averages that the program prints.
unfoldable pub averages : (fuel : ℕ) → Locals → Run (ℕ × ℕ × ℕ)
averages fuel s = do
  first ← heap_find_avg_free_block_size fuel s.first.heap
  next ← heap_find_avg_free_block_size fuel s.next.heap
  best ← heap_find_avg_free_block_size fuel s.best.heap
  ok (first, next, best)

unfoldable pub main :
    (best_block fuel : ℕ) (rand : ℕ → ℕ) (first next best : Grant) → Run (ℕ × ℕ × ℕ)
main best_block fuel rand first next best = do
  s ← set_up first next best
  s' ← main_loop best_block fuel rand op_count s
  averages fuel s'
