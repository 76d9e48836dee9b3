-- ===== src/Tests/Allocator.antt =====
-- Examples for the allocator: a region of 96 bytes with three blocks.
use cs_261_basics_of_compute.Prelude.{
  ℕ, ◌+◌, ◌-◌, ◌<◌, ◌^◌, ◌≡◌, refl, true, List, [], ◌∷◌, arith, ◌==◌, some, if◌then◌else◌, inl, inr,
}
use cs_261_basics_of_compute.Heap.Layout.{
  SearchAlg, firstfit, nextfit, bestfit, Heap, null, set_block_header,
}
use cs_261_basics_of_compute.Heap.Search.{
  ok, out_of_fuel, find_fit, malloc_first_fit, malloc_next_fit, malloc_best_fit, heap_malloc,
}
use cs_261_basics_of_compute.Heap.Release.{coalesce, heap_free}
use cs_261_basics_of_compute.Heap.Create.{heap_create}
use cs_261_basics_of_compute.Heap.Chain.{Block, free_block, used_block, Holds}
use cs_261_basics_of_compute.Heap.Merge.{Separated, release}
use cs_261_basics_of_compute.Heap.Fit.{FirstFit, malloc_first_fit-FirstFit}
use cs_261_basics_of_compute.Heap.NextFit.{NextFit, malloc_next_fit-NextFit}
use cs_261_basics_of_compute.Heap.BestFit.{BestFit, malloc_best_fit-BestFit}
use cs_261_basics_of_compute.Heap.Malloc.{Served, heap_malloc-Served}
use cs_261_basics_of_compute.Heap.Free.{heap_free-release}
use cs_261_basics_of_compute.Heap.Created.{IsFresh, heap_create-IsFresh}
use cs_261_basics_of_compute.Heap.Dangling.{Boundary, coalesce_dangles, malloc_first_fit-huge, huge}

abbrev pub words : ℕ → ℕ
words x =
    if x == 996
    then 1
    else if x == 1004
    then 17
    else if x == 1016
    then 17
    else if x == 1020
    then 48
    else if x == 1064
    then 48
    else if x == 1068
    then 33
    else if x == 1096
    then 33
    else 0

abbrev pub three : List Block
three = used_block 16 ∷ free_block 48 ∷ used_block 32 ∷ []

abbrev pub heap : SearchAlg → Heap
heap alg = record { search_alg = alg; size = 96; next = 1020; start = 1004; mem = words }

pub heap-Holds : (alg : SearchAlg) → Holds (heap alg) three
heap-Holds alg = record {
  region = record { aligned = refl; small = omega arith; below = omega arith };
  chain = (
    record { header = refl; footer = refl; shape = (refl, omega arith) },
    (
      record { header = refl; footer = refl; shape = (refl, omega arith) },
      (record { header = refl; footer = refl; shape = (refl, omega arith) }, refl),
    ),
  );
}

pub three-Separated : Separated true three
three-Separated = (inl refl, (inl refl, (inr refl, tt)))

heap_malloc-Served_example :
    (q : ℕ × Heap) × (heap_malloc null 4 (heap bestfit) 16 ≡ ok q)
    × Served (heap bestfit) three 16 q
heap_malloc-Served_example =
    heap_malloc-Served (heap bestfit) three 16 4 (heap-Holds bestfit)
      (used_block 16 ∷ [], free_block 48 ∷ used_block 32 ∷ [], refl, refl) (refl, omega arith)
      (omega arith)

malloc_first_fit-FirstFit_example :
    (q : ℕ × Heap) × (malloc_first_fit 4 (heap firstfit) 16 ≡ ok q)
    × FirstFit (heap firstfit) three 24 q
malloc_first_fit-FirstFit_example =
    malloc_first_fit-FirstFit (heap firstfit) three 16 4 (heap-Holds firstfit) (refl, omega arith)
      (omega arith)

malloc_next_fit-NextFit_example :
    (q : ℕ × Heap) × (malloc_next_fit 4 (heap nextfit) 16 ≡ ok q)
    × NextFit (heap nextfit) (used_block 16 ∷ []) (free_block 48 ∷ used_block 32 ∷ []) 24 q
malloc_next_fit-NextFit_example =
    malloc_next_fit-NextFit (heap nextfit) (used_block 16 ∷ []) (free_block 48 ∷ used_block 32 ∷ [])
      16 4 (heap-Holds nextfit) refl (refl, omega arith) (omega arith)

malloc_best_fit-BestFit_example :
    (q : ℕ × Heap) × (malloc_best_fit null 4 (heap bestfit) 16 ≡ ok q)
    × BestFit (heap bestfit) three 24 q
malloc_best_fit-BestFit_example =
    malloc_best_fit-BestFit (heap bestfit) three 16 4 (heap-Holds bestfit) (refl, omega arith)
      (omega arith)

-- The first block is given back and merged with the free one behind it.
heap_free-release_example :
    Holds
      (heap_free (heap firstfit) 1008)
      (release [] (used_block 16) (free_block 48 ∷ used_block 32 ∷ []))
    × Separated true (release [] (used_block 16) (free_block 48 ∷ used_block 32 ∷ []))
heap_free-release_example =
    heap_free-release (heap firstfit) [] (used_block 16) (free_block 48 ∷ used_block 32 ∷ [])
      (heap-Holds firstfit) three-Separated refl (omega arith)

heap_create-IsFresh_example :
    (h : Heap) × (heap_create (some (4096, λ _. 0)) 1024 nextfit ≡ some h)
    × IsFresh 4096 1024 nextfit h
heap_create-IsFresh_example =
    heap_create-IsFresh 4096 1024 (λ _. 0) nextfit (omega arith) (omega arith) (omega arith)

-- Two free blocks of 8 and 16 bytes in 24, with `next` at the second.
abbrev pair_words : ℕ → ℕ
pair_words x =
    if x == 1004
    then 8
    else if x == 1008
    then 8
    else if x == 1012
    then 16
    else if x == 1024
    then 16
    else 0

abbrev pair : Heap
pair = record { search_alg = nextfit; size = 24; next = 1012; start = 1004; mem = pair_words }

pair-Holds : Holds pair (free_block 8 ∷ free_block 16 ∷ [])
pair-Holds = record {
  region = record { aligned = refl; small = omega arith; below = omega arith };
  chain = (
    record { header = refl; footer = refl; shape = (refl, omega arith) },
    (record { header = refl; footer = refl; shape = (refl, omega arith) }, refl),
  );
}

coalesce_dangles_example :
    Holds (coalesce pair 1004) (free_block 24 ∷ [])
    × ((coalesce pair 1004).next ≡ 1012)
    × ¬ Boundary (coalesce pair 1004) (free_block 24 ∷ [])
coalesce_dangles_example =
    coalesce_dangles pair [] (free_block 8) (free_block 16) [] pair-Holds refl refl refl

malloc_first_fit-huge_example :
    (h' : Heap) × (malloc_first_fit 1 pair huge ≡ ok (1008, h'))
    × (h'.mem 1004 ≡ 1)
    × (h'.mem (1004 + 2 ^ 32 - 4) ≡ 1)
    × (1004 + 24 < 1004 + 2 ^ 32 - 4)
    × ((k user_size : ℕ) → find_fit k h' user_size h'.start ≡ out_of_fuel)
malloc_first_fit-huge_example =
    malloc_first_fit-huge pair (free_block 8) (free_block 16 ∷ []) 1 pair-Holds refl (omega arith)

-- The block of 48 bytes, granted whole, and given back.
abbrev pub served_heap : Heap
served_heap = record (heap firstfit) { mem = set_block_header words 1020 48 1 }
