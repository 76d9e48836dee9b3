-- ===== src/Heap/Prepare.antt =====
-- `prepare_block_for_use` and the searches of lab5/implicit.c, on a heap that holds a list of blocks.
use cs_261_basics_of_compute.Prelude.{
  ℕ, ◌+◌, ◌-◌, ◌*◌, ◌%◌, ◌^◌, ◌≤◌, ◌<◌, ◌≡◌, refl, ◌⊎◌, inl, inr, true, false, ◌||◌, List, [], ◌∷◌,
  ◌++◌, arith, ltb, Bool-cases, ◌∙◌,
}
use cs_261_basics_of_compute.Heap.Layout.{Heap, u32, ptr_add, set_block_header}
use cs_261_basics_of_compute.Heap.Search.{ok, get_size_to_allocate, prepare_block_for_use}
use cs_261_basics_of_compute.Heap.Chain.{
  Block, free_block, used_block, flag, IsSize, IsBlock, Chain, Holds, span, Chain-span, Chain-split,
  get_block_size-IsBlock, set_block_header-IsBlock, set_block_header_frame,
}
use cs_261_basics_of_compute.Heap.Surgery.{Chain-replace}
use cs_261_basics_of_compute.Heap.Words.{Words, set_block_header-Words}
use cs_261_basics_of_compute.Heap.Policy.{Fits, place, place_large, place_snug}

-- A request that the code rounds to a block: a multiple of eight whose block size fits 32 bits.
abbrev pub IsRequest : ℕ → Type 0
IsRequest user_size = (user_size % 8 ≡ 0) × (user_size + 8 < 2 ^ 32)

pub get_size_to_allocate-IsRequest :
    (user_size : ℕ) → IsRequest user_size → get_size_to_allocate user_size ≡ ok (user_size + 8)
unfolding get_size_to_allocate
get_size_to_allocate-IsRequest u r = ground arith

abbrev cut : (ℕ → ℕ) → (p need rest : ℕ) → ℕ → ℕ
cut m p need rest =
    set_block_header (set_block_header m (p + need) rest (flag false)) p need (flag true)

-- Two blocks written into one place, the upper header first, as `prepare_block_for_use` does.
module _ (m : ℕ → ℕ) (p need rest : ℕ) (s : IsSize need) (t : IsSize rest)
    (small : need + rest < 2 ^ 31) (below : p + (need + rest) < 2 ^ 63) where
  cut-Chain :
      Chain (cut m p need rest) p (used_block need ∷ free_block rest ∷ []) (p + (need + rest))
  cut-Chain =
      let lower =
        set_block_header-IsBlock (set_block_header m (p + need) rest (flag false)) p need true s
          (omega arith) (omega arith) in
      let upper = set_block_header-IsBlock m (p + need) rest false t (omega arith) (omega arith) in
      let keeps =
        set_block_header_frame (set_block_header m (p + need) rest (flag false)) p need true s
          (omega arith) (omega arith) in
      (
        lower,
        (
          record {
            header = keeps (p + need) (omega arith) (omega arith) ∙ upper.header;
            footer = keeps (p + need + rest - 4) (omega arith) (omega arith) ∙ upper.footer;
            shape = t;
          },
          omega arith,
        ),
      )

  cut_frame : (x : ℕ) → (x < p) ⊎ (p + (need + rest) ≤ x) → cut m p need rest x ≡ m x
  cut_frame x o =
      set_block_header_frame (set_block_header m (p + need) rest (flag false)) p need true s
        (omega arith) (omega arith) x (omega arith) (omega arith)
      ∙ set_block_header_frame m (p + need) rest false t (omega arith) (omega arith) x (omega arith)
          (omega arith)

-- A block in the middle of a heap, with the bounds that its place gives.
pub record Spot (h : Heap) (xs : List Block) (c : Block) (p : ℕ) : Type 0 where
  pub at_block : IsBlock h.mem p c
  pub lo : h.start ≤ p
  pub hi : p + c.size ≤ h.start + h.size

pub Spot-Holds :
    (h : Heap) (xs : List Block) (c : Block) (ys : List Block)
    → Holds h (xs ++ c ∷ ys)
    → Spot h xs c (h.start + span xs)
Spot-Holds h xs c ys k =
    let (_, (i, rest)) = Chain-split h.mem h.start (h.start + h.size) xs (c ∷ ys) k.chain in
    record { at_block = i; lo = omega arith; hi = omega (arith, Chain-span h.mem _ _ ys rest) }

-- The heap after its words from `p` on have become other blocks.
abbrev pub with_mem : Heap → (ℕ → ℕ) → Heap
with_mem h m = record h { mem = m }

pub Holds-replace :
    (h : Heap) (m' : ℕ → ℕ) (xs ws zs ys : List Block)
    → Holds h (xs ++ (ws ++ ys))
    → ((x : ℕ) → (x < h.start + span xs) ⊎ (h.start + span xs + span ws ≤ x) → m' x ≡ h.mem x)
    → Chain m' (h.start + span xs) zs (h.start + span xs + span ws)
    → Holds (with_mem h m') (xs ++ (zs ++ ys))
Holds-replace h m' xs ws zs ys k same new = record {
  region = record { aligned = k.region.aligned; small = k.region.small; below = k.region.below };
  chain = Chain-replace h.mem m' h.start (h.start + h.size) xs ws zs ys k.chain same new;
}

-- What a search gives: the block that it took, cut or whole, and the heap around it.
pub record Prepared (h : Heap) (xs : List Block) (c : Block) (ys : List Block) (need : ℕ)
    (r : ℕ × Heap) : Type 0 where
  pub payload : r.0 ≡ h.start + span xs + 4
  pub heap : r.1 ≡ with_mem h r.1.mem
  pub holds : Holds r.1 (xs ++ (place need c ++ ys))
  pub words : Words h.mem → Words r.1.mem

module _ (h : Heap) (xs : List Block) (c : Block) (ys : List Block) (user_size : ℕ)
    (r : IsRequest user_size) (k : Holds h (xs ++ c ∷ ys)) (fits : Fits (user_size + 8) c) where
  pub prepare-Prepared :
      (r : ℕ × Heap) × (prepare_block_for_use h (h.start + span xs) user_size ≡ ok r)
      × Prepared h xs c ys (user_size + 8) r
  unfolding prepare_block_for_use
  prepare-Prepared =
      let p : ℕ = h.start + span xs in
      let need : ℕ = user_size + 8 in
      let rest : ℕ = c.size - need in
      let spot = Spot-Holds h xs c ys k in
      let size = get_block_size-IsBlock h.mem p c spot.at_block in
      let shape = spot.at_block.shape in
      let region = k.region in
      let sum1 : u32 (need + 128) ≡ need + 128 = omega arith in
      let sum2 : u32 (need * 2) ≡ need * 2 = omega arith in
      let next : ptr_add p 4 ≡ p + 4 = omega arith in
      let cell : ptr_add p need ≡ p + need = omega arith in
      let left : u32 (c.size + 2 ^ 32 - need) ≡ rest = omega arith in
      elim (Bool-cases (ltb (need + 128) c.size || ltb (need * 2) c.size)) [
        | inl large ↦
            let bounds : (8 ≤ rest) × (rest % 8 ≡ 0) × (need + rest ≡ c.size + 0) = ground arith in
            let chain =
              cut-Chain h.mem p need rest (omega arith) (omega arith) (omega arith) (omega arith) in
            let frame =
              cut_frame h.mem p need rest (omega arith) (omega arith) (omega arith) (omega arith) in
            (
              (p + 4, with_mem h (cut h.mem p need rest)),
              rw (
                get_size_to_allocate-IsRequest user_size r,
                size,
                sum1,
                sum2,
                large,
                next,
                cell,
                left,
              ),
              record {
                payload = refl;
                heap = refl;
                holds = rw (place_large need c large) (
                    Holds-replace h (cut h.mem p need rest) xs (c ∷ [])
                      (used_block need ∷ free_block rest ∷ []) ys k (λ x o. frame x (omega arith))
                      (rw bounds.2 at chain));
                words = λ w.
                    set_block_header-Words (set_block_header h.mem (p + need) rest 0) p need 1
                      (omega arith) (omega arith)
                      (set_block_header-Words h.mem (p + need) rest 0 (omega arith) (omega arith)
                        w);
              },
            )
        | inr snug ↦
            let bounds : c.size < 2 ^ 31 = omega arith in
            let mem' = set_block_header h.mem p c.size 1 in
            let i =
              set_block_header-IsBlock h.mem p c.size true shape (omega arith) (omega arith) in
            let frame =
              set_block_header_frame h.mem p c.size true shape (omega arith) (omega arith) in
            (
              (p + 4, with_mem h mem'),
              rw (get_size_to_allocate-IsRequest user_size r, size, sum1, sum2, snug, next),
              record {
                payload = refl;
                heap = refl;
                holds = rw (place_snug need c snug) (
                    Holds-replace h mem' xs (c ∷ []) (used_block c.size ∷ []) ys k
                      (λ x o. frame x (omega arith) (omega arith)) (i, omega arith));
                words = λ w. set_block_header-Words h.mem p c.size 1 (omega arith) (omega arith) w;
              },
            )
      ]
