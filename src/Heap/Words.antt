-- ===== src/Heap/Words.antt =====
-- The words of the region of lab5/implicit.c stay words of 32 bits.
use cs_261_basics_of_compute.Prelude.{
  ℕ, ◌^◌, ◌≤◌, ◌<◌, ◌≡◌, refl, not, ◌||◌, Bool-cases, inl, inr, arith,
}
use cs_261_basics_of_compute.Prelude.Store.{write}
use cs_261_basics_of_compute.Heap.Layout.{
  Heap, get_block_size, set_block_header, header_value, block_is_in_use, get_next_block,
  is_within_heap_range, get_block_start, get_previous_block,
}
use cs_261_basics_of_compute.Heap.Release.{coalesce, heap_free}

abbrev pub Words : (ℕ → ℕ) → Type 0
Words m = (x : ℕ) → m x < 2 ^ 32

header_value_bound :
    (size in_use : ℕ) → size < 2 ^ 32 → in_use ≤ 1 → header_value size in_use < 2 ^ 32
unfolding header_value
header_value_bound size in_use small bit = ground arith

pub set_block_header-Words :
    (m : ℕ → ℕ) (b size in_use : ℕ)
    → size < 2 ^ 32
    → in_use ≤ 1
    → Words m
    → Words (set_block_header m b size in_use)
unfolding set_block_header write
set_block_header-Words m b size in_use small bit w x =
    let v = header_value_bound size in_use small bit in ground (arith, v, w x)

get_block_size_bound : (m : ℕ → ℕ) (b : ℕ) → Words m → get_block_size m b < 2 ^ 32
unfolding get_block_size
get_block_size_bound m b w = omega (arith, w b)

-- What a release leaves alone.
pub record Same (h h' : Heap) : Type 0 where
  pub words : Words h.mem → Words h'.mem
  pub search_alg : h'.search_alg ≡ h.search_alg
  pub size : h'.size ≡ h.size
  pub start : h'.start ≡ h.start

coalesce-Same : (h : Heap) (b : ℕ) → Same h (coalesce h b)
unfolding coalesce
coalesce-Same h b =
    let same : Same h h = record { words = λ w. w; search_alg = refl; size = refl; start = refl } in
    elim (Bool-cases
      (not (is_within_heap_range h b) || not (is_within_heap_range h (get_next_block h.mem b)))) [
        | inl outside ↦ rw outside same
        | inr inside ↦
            elim (Bool-cases
              (block_is_in_use h.mem b || block_is_in_use h.mem (get_next_block h.mem b))) [
                | inl busy ↦ rw (inside, busy) same
                | inr idle ↦
                    rw (inside, idle)
                      (record {
                        words =
                            λ w. set_block_header-Words h.mem b _ 0 (omega arith) (omega arith) w;
                        search_alg = refl;
                        size = refl;
                        start = refl;
                      })
              ]
      ]

pub heap_free-Same : (h : Heap) (p : ℕ) → Same h (heap_free h p)
unfolding heap_free
heap_free-Same h p =
    let start = get_block_start p in
    let h1 : Heap = record h {
      mem = set_block_header h.mem start (get_block_size h.mem start) 0;
    } in
    let s2 = coalesce-Same h1 start in
    let s3 = coalesce-Same (coalesce h1 start) (get_previous_block (coalesce h1 start).mem start) in
    record {
      words = λ w. s3.words (
          s2.words (
            set_block_header-Words h.mem start _ 0 (get_block_size_bound h.mem start w)
              (omega arith) w));
      search_alg = cc;
      size = cc;
      start = cc;
    }
