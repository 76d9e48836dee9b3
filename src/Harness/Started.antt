-- ===== src/Harness/Started.antt =====
-- The loop of lab5/implicit-test.c on the heaps that it sets up.
use cs_261_basics_of_compute.Prelude.{
  ℕ, ◌+◌, ◌^◌, ◌≤◌, ◌<◌, ◌≡◌, ◌≢◌, refl, Option, none, some, arith,
}
use cs_261_basics_of_compute.Prelude.Run.{ok}
use cs_261_basics_of_compute.Heap.Layout.{SearchAlg, Heap, firstfit, nextfit, bestfit, null}
use cs_261_basics_of_compute.Heap.Create.{heap_create}
use cs_261_basics_of_compute.Heap.Created.{heap_create-IsFresh}
use cs_261_basics_of_compute.Heap.Words.{Words, set_block_header-Words}
use cs_261_basics_of_compute.Heap.Session.{Tidy}
use cs_261_basics_of_compute.Heap.Orderly.{IsFresh-Tidy}
use cs_261_basics_of_compute.Harness.Defs.{Trial, Locals, Grant, heap_size, main_loop, made, set_up}
use cs_261_basics_of_compute.Harness.Kept.{opened-Kept}
use cs_261_basics_of_compute.Harness.Rounds.{Outcome, DrawsEights, main_loop-Outcome}

-- Memory of the size of a heap, below the middle of the address space, that holds words.
pub record Ample (g : Grant) : Type 0 where
  pub brk : ℕ
  pub mem : ℕ → ℕ
  pub granted : g.sbrk ≡ some (brk, mem)
  pub below : brk + heap_size < 2 ^ 63
  pub words : Words mem

abbrev HasWords : Option Heap → Type 0
HasWords none = Unit {0}
HasWords (some h) = Words h.mem

heap_create-HasWords :
    (brk size : ℕ) (mem : ℕ → ℕ) (alg : SearchAlg)
    → Words mem
    → HasWords (heap_create (some (brk, mem)) size alg)
unfolding heap_create
heap_create-HasWords brk size mem alg w =
    set_block_header-Words mem _ _ 0 (omega arith) (omega arith) w

module _ (fuel : ℕ) (enough : 2 ^ 18 ≤ fuel) where
  made-Tidy :
      (g : Grant) (alg : SearchAlg)
      → Ample g
      → (h : Heap) × (heap_create g.sbrk heap_size alg ≡ some h) × (alg ≢ nextfit → Tidy fuel h)
  made-Tidy g alg a =
      let (h, run, fresh) =
        heap_create-IsFresh a.brk heap_size a.mem alg (omega arith) (omega arith) a.below in
      (
        h,
        rw a.granted run,
        λ ne.
            IsFresh-Tidy fuel a.brk heap_size alg h fresh ne
              (rw run at (heap_create-HasWords a.brk heap_size a.mem alg a.words))
              (omega (arith, fresh.inside, fresh.after)),
      )

  -- With fuel of at least 2^18, and `best_block` starting as `NULL`: if each heap gets its 2^21 bytes,
  -- below the middle of the address space, where memory holds 32-bit words, and every size that is drawn
  -- in these rounds is a multiple of eight, then after any number of rounds the first-fit and the
  -- best-fit heap have had requests and releases of what was granted and not given back, each once;
  -- their arrays list what is held then, each payload once, and have a free cell. The rounds only end
  -- early after rounds of which all this holds, where the size that the next one draws, a multiple of
  -- eight below 4096, is asked of the next-fit heap and has no result there.
  pub set_up-Outcome :
      (rand : ℕ → ℕ) (first next best : Grant) (n : ℕ)
      → Ample first
      → Ample next
      → Ample best
      → ((s : Locals) → set_up first next best ≡ ok s → DrawsEights fuel rand n s)
      → (s : Locals) × (set_up first next best ≡ ok s)
        × Outcome fuel rand s.first.heap s.best.heap s n (main_loop null fuel rand n s)
  unfolding set_up made
  set_up-Outcome rand first next best n a b c eights =
      let (h1, run1, tidy1) = made-Tidy first firstfit a in
      let (h2, run2, _) = made-Tidy next nextfit b in
      let (h3, run3, tidy3) = made-Tidy best bestfit c in
      let t1 : Trial = record { heap = h1; pointer_array = first.pointers } in
      let t2 : Trial = record { heap = h2; pointer_array = next.pointers } in
      let t3 : Trial = record { heap = h3; pointer_array = best.pointers } in
      let s : Locals = record { first = t1; next = t2; best = t3; nb_pointers = 0; drawn = 0 } in
      let up : set_up first next best ≡ ok s = rw (run1, run2, run3) refl in
      (
        s,
        up,
        main_loop-Outcome fuel rand h1 h3 (tidy1 (λ e. cc)) (tidy3 (λ e. cc)) n s (eights s up)
            (record {
              first = opened-Kept fuel t1;
              best = opened-Kept fuel t3;
              room = omega arith;
            }),
      )
