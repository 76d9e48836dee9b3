-- ===== src/Harness/Rounds.antt =====
-- The rounds of the loop of lab5/implicit-test.c.
use cs_261_basics_of_compute.Prelude.{
  ℕ, Option, none, some, if◌then◌else◌, zero, suc, ◌+◌, ◌-◌, ◌%◌, ◌<◌, ◌≡◌, ◌≢◌, inl, inr, refl,
  true, ltb, ◌==◌, arith, Bool-cases,
}
use cs_261_basics_of_compute.Prelude.Run.{Run, ok, undefined, out_of_fuel, ◌>>=◌}
use cs_261_basics_of_compute.Prelude.Store.{write}
use cs_261_basics_of_compute.Heap.Layout.{Heap, null}
use cs_261_basics_of_compute.Heap.Search.{heap_malloc}
use cs_261_basics_of_compute.Heap.Prepare.{IsRequest}
use cs_261_basics_of_compute.Heap.Session.{Tidy}
use cs_261_basics_of_compute.Harness.Draw.{get_rand_block_size, get_rand_block_size-bounds}
use cs_261_basics_of_compute.Harness.Defs.{
  Trial, Locals, malloc_into, free_at, max_pointers, allocate, release_one, operate, main_loop,
}
use cs_261_basics_of_compute.Harness.Kept.{Kept, malloc_into-Kept, free_at-Kept}
use native.Mathlib.Nat.{mod-lt}

-- Both heaps that do not search from a next block are in order, and the arrays are not full.
pub record IsSound (fuel : ℕ) (h_first h_best : Heap) (s : Locals) : Type 0 where
  pub first : Kept fuel h_first s.nb_pointers s.first
  pub best : Kept fuel h_best s.nb_pointers s.best
  pub room : s.nb_pointers < max_pointers

-- The number of the call of `rand` with which a round begins to draw a size, if it asks for memory.
unfoldable pub draws_from : (ℕ → ℕ) → Locals → Option ℕ
draws_from rand s =
    if s.nb_pointers == 0
    then some s.drawn
    else if ltb s.nb_pointers (rand s.drawn % max_pointers)
    then some (s.drawn + 1)
    else none

-- The size that the next round draws.
pub record Draws (rand : ℕ → ℕ) (s : Locals) (size : ℕ) : Type 0 where
  pub from : ℕ
  pub drawn : ℕ
  pub asks : draws_from rand s ≡ some from
  pub draws : get_rand_block_size rand from ≡ ok (size, drawn)

-- The next round draws a size, a multiple of eight below 4096, and the request for it to the heap that
-- searches from a next block has no result.
pub record Stops (fuel : ℕ) (rand : ℕ → ℕ) (s : Locals) : Type 0 where
  pub size : ℕ
  pub drawn : Draws rand s size
  pub even : size % 8 ≡ 0
  pub below : size < 4096
  pub no_result : (q : ℕ × Heap) → heap_malloc null fuel s.next.heap size ≢ ok q

-- Every size that is drawn in the first `n` rounds is a multiple of eight.
abbrev pub DrawsEights : (fuel : ℕ) → (ℕ → ℕ) → (n : ℕ) → Locals → Type 0
DrawsEights fuel rand n s =
    (done : ℕ)
    → done < n
    → (s' : Locals) → main_loop null fuel rand done s ≡ ok s'
    → (size : ℕ) → Draws rand s' size
    → size % 8 ≡ 0

-- What rounds come to.
pub data Outcome (fuel : ℕ) (rand : ℕ → ℕ) (h_first h_best : Heap) (s : Locals)
    : ℕ → Run Locals → Type 0 where
  finished :
      {n : ℕ} {r : Run Locals} {s' : Locals}
      → r ≡ ok s'
      → IsSound fuel h_first h_best s'
      → Outcome fuel rand h_first h_best s n r
  stopped :
      {n : ℕ} {r : Run Locals} {s' : Locals} (done : ℕ)
      → done < n
      → main_loop null fuel rand done s ≡ ok s'
      → IsSound fuel h_first h_best s'
      → Stops fuel rand s'
      → ((s'' : Locals) → r ≢ ok s'')
      → Outcome fuel rand h_first h_best s n r

-- What has no result has missing with what comes after it.
bind_no_result :
    {A B : Type 0} (r : Run A) (f : A → Run B) → ((a : A) → r ≢ ok a) → (b : B) → (r >>= f) ≢ ok b
bind_no_result (ok a) f missing b e = missing a refl
bind_no_result undefined f missing b e = cc
bind_no_result out_of_fuel f missing b e = cc

-- A request to the heap that searches from a next block.
data Ended (fuel size : ℕ) (t : Trial) (r : Run Trial) : Type 0 where
  went : {t' : Trial} → r ≡ ok t' → Ended fuel size t r
  broke :
      ((q : ℕ × Heap) → heap_malloc null fuel t.heap size ≢ ok q)
      → ((t' : Trial) → r ≢ ok t')
      → Ended fuel size t r

malloc_into-Ended :
    (fuel size nb : ℕ) (t : Trial) (q : Run (ℕ × Heap))
    → nb < max_pointers
    → heap_malloc null fuel t.heap size ≡ q
    → Ended fuel size t (malloc_into null fuel size nb t)
unfolding malloc_into
malloc_into-Ended fuel size nb t (ok (p, h)) room e =
    let fits : ltb nb max_pointers ≡ true = ground arith in
    went {t' = record { heap = h; pointer_array = write t.pointer_array nb p }} (rw (e, fits) refl)
malloc_into-Ended fuel size nb t undefined room e = broke (λ q e'. cc) (rw e (λ t' e'. cc))
malloc_into-Ended fuel size nb t out_of_fuel room e = broke (λ q e'. cc) (rw e (λ t' e'. cc))

last-Kept :
    (fuel : ℕ) (h : Heap) (t : Trial) (index nb : ℕ)
    → Kept fuel h nb t
    → index < nb
    → Kept fuel h (nb - 1) (free_at index (nb - 1) t)
last-Kept fuel h t index zero k inside = absurd (omega arith)
last-Kept fuel h t index (suc last) k inside =
    let e : suc last - 1 ≡ last = omega arith in rw e (free_at-Kept fuel h t index last k inside)

module _ (fuel : ℕ) (rand : ℕ → ℕ) (h_first h_best : Heap) (tidy : Tidy fuel h_first)
    (tidy' : Tidy fuel h_best) where
  data Round (s : Locals) (r : Run Locals) : Type 0 where
    stepped : {s' : Locals} → r ≡ ok s' → IsSound fuel h_first h_best s' → Round s r
    halted : Stops fuel rand s → ((s' : Locals) → r ≢ ok s') → Round s r

  allocate-Round :
      (s : Locals) (from : ℕ)
      → draws_from rand s ≡ some from
      → ((size : ℕ) → Draws rand s size → size % 8 ≡ 0)
      → IsSound fuel h_first h_best s
      → s.nb_pointers + 1 < max_pointers
      → Round s (allocate null fuel rand from s)
  unfolding allocate
  allocate-Round s from asks eights sound room =
      let (size, drawn', draws, _, below) = get_rand_block_size-bounds rand from in
      let drawn : Draws rand s size = record {
        from = from;
        drawn = drawn';
        asks = asks;
        draws = draws;
      } in
      let even = eights size drawn in
      let request : IsRequest size = (even, omega arith) in
      let (first, run, kept) =
        malloc_into-Kept fuel h_first s.first s.nb_pointers size tidy sound.first request
          sound.room in
      let (best, run', kept') =
        malloc_into-Kept fuel h_best s.best s.nb_pointers size tidy' sound.best request
          sound.room in
      elim (malloc_into-Ended fuel size s.nb_pointers s.next _ sound.room refl) [
        | went {t' = next} e ↦
            stepped
              {s' = record {
                first = first;
                next = next;
                best = best;
                nb_pointers = s.nb_pointers + 1;
                drawn = drawn';
              }}
              (rw (draws, run, e, run') refl) (record { first = kept; best = kept'; room = room })
        | broke stops missing ↦
            halted
              (record { size = size; drawn = drawn; even = even; below = below; no_result = stops })
              (rw (draws, run) (bind_no_result _ _ missing))
      ]

  release_one-IsSound :
      (s : Locals) (index drawn : ℕ)
      → IsSound fuel h_first h_best s
      → index < s.nb_pointers
      → IsSound fuel h_first h_best (release_one index drawn s)
  unfolding release_one
  release_one-IsSound s index drawn sound inside = record {
    first = last-Kept fuel h_first s.first index s.nb_pointers sound.first inside;
    best = last-Kept fuel h_best s.best index s.nb_pointers sound.best inside;
    room = omega (arith, sound.room);
  }

  operate-Round :
      (s : Locals)
      → ((size : ℕ) → Draws rand s size → size % 8 ≡ 0)
      → IsSound fuel h_first h_best s
      → Round s (operate null fuel rand s)
  unfolding operate draws_from
  operate-Round s eights sound = elim (Bool-cases (s.nb_pointers == 0)) [
    | inl missing ↦
        rw missing
          (allocate-Round s s.drawn (rw missing refl) eights sound (ground (arith, missing)))
    | inr more ↦ elim (Bool-cases (ltb s.nb_pointers (rand s.drawn % max_pointers))) [
      | inl few ↦
          rw (more, few)
            (allocate-Round s (s.drawn + 1) (rw (more, few) refl) eights sound
              (ground (arith, few)))
      | inr many ↦
          rw (more, many)
            (stepped refl (
              release_one-IsSound s (rand (s.drawn + 1) % s.nb_pointers) (s.drawn + 2) sound
                (mod-lt (rand (s.drawn + 1)) (ground (arith, more)))))
    ]
  ]

  pub main_loop-Outcome :
      (n : ℕ) (s : Locals)
      → DrawsEights fuel rand n s
      → IsSound fuel h_first h_best s
      → Outcome fuel rand h_first h_best s n (main_loop null fuel rand n s)
  unfolding main_loop
  main_loop-Outcome zero s eights sound = finished refl sound
  main_loop-Outcome (suc n) s eights sound =
      elim (operate-Round s (eights 0 (omega arith) s refl) sound) [
        | stepped {s' = s'} e sound' ↦
            let later : DrawsEights fuel rand n s' =
              λ done lt t run. eights (suc done) (omega (arith, lt)) t (rw e run) in
            rw e (elim (main_loop-Outcome n s' later sound') [
              | finished run kept ↦ finished run kept
              | stopped done lt run kept stops missing ↦
                  stopped (suc done) (omega arith) (rw e run) kept stops missing
            ])
        | halted stops missing ↦
            stopped 0 (omega arith) refl sound stops (bind_no_result _ _ missing)
      ]
