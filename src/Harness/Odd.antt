-- ===== src/Harness/Odd.antt =====
-- The main program of lab5/implicit-test.c with a first size that is no multiple of eight.
use cs_261_basics_of_compute.Prelude.{ℕ, suc, ◌%◌, ◌<◌, ◌≡◌, ◌≢◌, refl, [], ◌∷◌, inl, arith}
use cs_261_basics_of_compute.Prelude.Run.{ok, undefined}
use cs_261_basics_of_compute.Heap.Layout.{SearchAlg, Heap, firstfit, nextfit, bestfit}
use cs_261_basics_of_compute.Heap.Search.{heap_malloc, malloc_with}
use cs_261_basics_of_compute.Heap.Chain.{Holds, free_block}
use cs_261_basics_of_compute.Heap.Created.{IsFresh, heap_create-IsFresh}
use cs_261_basics_of_compute.Heap.Dangling.{malloc_first_fit_odd}
use cs_261_basics_of_compute.Harness.Draw.{get_rand_block_size}
use cs_261_basics_of_compute.Harness.Defs.{
  Trial, Locals, Grant, heap_size, malloc_into, allocate, operate, main_loop, made, set_up, main,
}
use cs_261_basics_of_compute.Harness.Started.{Ample}

module _ (best_block fuel : ℕ) (rand : ℕ → ℕ) (size drawn : ℕ)
    (draws : get_rand_block_size rand 0 ≡ ok (size, drawn)) (odd : size % 8 ≢ 0)
    (enough : 1 < fuel) where
  malloc_with_odd :
      (h : Heap) (alg : SearchAlg)
      → Holds h (free_block h.size ∷ [])
      → alg ≡ firstfit
      → malloc_with alg best_block fuel h size ≡ undefined
  unfolding malloc_with
  malloc_with_odd h alg holds e = rw e (
      malloc_first_fit_odd h (free_block h.size ∷ []) size fuel holds (inl refl) odd
        (omega (arith, enough)))

  malloc_into_odd :
      (h : Heap) (b : ℕ → ℕ) (brk : ℕ)
      → IsFresh brk heap_size firstfit h
      → malloc_into best_block fuel size 0 (record { heap = h; pointer_array = b }) ≡ undefined
  unfolding malloc_into heap_malloc
  malloc_into_odd h b brk fresh =
      rw (malloc_with_odd h h.search_alg fresh.holds fresh.search_alg) refl

  operate_odd :
      (first next best : Trial)
      → malloc_into best_block fuel size 0 first ≡ undefined
      → operate best_block fuel rand
          (record { first = first; next = next; best = best; nb_pointers = 0; drawn = 0 })
        ≡ undefined
  unfolding operate allocate
  operate_odd first next best e = rw (draws, e) refl

  main_loop_odd :
      (s : Locals) (n : ℕ)
      → operate best_block fuel rand s ≡ undefined
      → main_loop best_block fuel rand (suc n) s ≡ undefined
  unfolding main_loop
  main_loop_odd s n e = rw e refl

  -- With fuel of at least 2: if each heap gets its 2^21 bytes, below the middle of the address space,
  -- where memory holds 32-bit words, and the first size that is
  -- drawn is no multiple of eight, then the program sets up its heaps, and does in the first round of the loop what C leaves
  -- undefined, and so as a whole.
  pub main_odd :
      (first next best : Grant)
      → Ample first
      → Ample next
      → Ample best
      → (s : Locals) × (set_up first next best ≡ ok s)
        × (operate best_block fuel rand s ≡ undefined)
        × (main best_block fuel rand first next best ≡ undefined)
  unfolding main set_up made
  main_odd first next best a b c =
      let (h1, run1, fresh) =
        heap_create-IsFresh a.brk heap_size a.mem firstfit (omega arith) (omega arith) a.below in
      let (h2, run2, _) =
        heap_create-IsFresh b.brk heap_size b.mem nextfit (omega arith) (omega arith) b.below in
      let (h3, run3, _) =
        heap_create-IsFresh c.brk heap_size c.mem bestfit (omega arith) (omega arith) c.below in
      let s : Locals = record {
        first = record { heap = h1; pointer_array = first.pointers };
        next = record { heap = h2; pointer_array = next.pointers };
        best = record { heap = h3; pointer_array = best.pointers };
        nb_pointers = 0;
        drawn = 0;
      } in
      let round : operate best_block fuel rand s ≡ undefined =
        operate_odd s.first s.next s.best (malloc_into_odd h1 first.pointers a.brk fresh) in
      (
        s,
        rw (a.granted, b.granted, c.granted, run1, run2, run3) refl,
        round,
        rw (a.granted, b.granted, c.granted, run1, run2, run3, main_loop_odd s 49999 round) refl,
      )
