-- ===== src/Heap/Session.antt =====
-- What a program does with the allocator of lab5/implicit.c: requests and releases in any order, under
-- the first-fit and best-fit policies.
use cs_261_basics_of_compute.Prelude.{
  ◌==◌, not, ◌&&◌, if◌then◌else◌, ◌||◌, ℕ, ◌*◌, ◌<◌, ◌≡◌, ◌≢◌, true, false, Bool, List,
}
use cs_261_basics_of_compute.Heap.Layout.{nextfit, Heap, null}
use cs_261_basics_of_compute.Heap.Search.{ok, heap_malloc}
use cs_261_basics_of_compute.Heap.Release.{heap_free}
use cs_261_basics_of_compute.Heap.Chain.{Block, Holds}
use cs_261_basics_of_compute.Heap.Prepare.{IsRequest}
use cs_261_basics_of_compute.Heap.Merge.{Separated}
use cs_261_basics_of_compute.Heap.InUse.{InUse}
use cs_261_basics_of_compute.Heap.Words.{Words}

-- A heap of blocks with no two free neighbours, whose policy is not next fit, and with fewer than
-- `fuel` blocks however it is cut.
pub record Tidy (fuel : ℕ) (h : Heap) : Type 0 where
  pub blocks : List Block
  pub holds : Holds h blocks
  pub apart : Separated true blocks
  pub words : Words h.mem
  pub policy : h.search_alg ≢ nextfit
  pub room : h.size < 8 * fuel

-- The payloads that a program holds.
abbrev pub Live : Type 0
Live = ℕ → Bool

-- Each of them is a block in use.
abbrev pub AreInUse : Heap → List Block → Live → Type 0
AreInUse h bs live = (q : ℕ) → live q ≡ true → InUse h.start q bs

-- The heaps that a program comes to, and the payloads that it then holds. It gives back only what it
-- holds, and holds what it was granted.
pub data Session (fuel : ℕ) (h : Heap) : Heap → Live → Type 0 where
  opened : Session fuel h h (λ q. false)
  requested :
      {h1 h2 : Heap} {live : Live} {p : ℕ} (user_size : ℕ)
      → Session fuel h h1 live
      → IsRequest user_size
      → heap_malloc null fuel h1 user_size ≡ ok (p, h2)
      → Session fuel h h2 (λ q. if q == null then live q else (q == p) || live q)
  given_back :
      {h1 : Heap} {live : Live} (p : ℕ)
      → Session fuel h h1 live
      → live p ≡ true
      → Session fuel h (heap_free h1 p) (λ q. not (q == p) && live q)

-- What a session keeps up.
pub record Orderly (fuel : ℕ) (h : Heap) (live : Live) : Type 0 where
  pub tidy : Tidy fuel h
  pub held : AreInUse h tidy.blocks live
