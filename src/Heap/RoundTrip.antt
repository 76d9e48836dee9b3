-- ===== src/Heap/RoundTrip.antt =====
-- `heap_free` undoes `heap_malloc`: lab5/implicit.c, lines 125 to 144 and 232 to 258.
use cs_261_basics_of_compute.Prelude.{
  ℕ, ◌+◌, ◌-◌, ◌*◌, ◌^◌, ◌<◌, ◌≡◌, refl, ◌≢◌, true, false, ◌||◌, Bool, List, [], ◌∷◌, ◌++◌, arith,
  ltb, Bool-cases, inl, inr, ap, sym, ◌∙◌, length,
}
use cs_261_basics_of_compute.Heap.Layout.{Heap, null, max_unused_bytes}
use cs_261_basics_of_compute.Heap.Search.{ok, malloc_first_fit}
use cs_261_basics_of_compute.Heap.Release.{heap_free}
use cs_261_basics_of_compute.Heap.Chain.{Block, free_block, used_block, Holds, span}
use cs_261_basics_of_compute.Heap.Policy.{Fits, place, place_large, place_snug}
use cs_261_basics_of_compute.Heap.Prepare.{IsRequest, Prepared}
use cs_261_basics_of_compute.Heap.Fit.{FirstFit, refused, granted, malloc_first_fit-FirstFit}
use cs_261_basics_of_compute.Heap.Merge.{
  merge, rejoin, release, Separated, Separated-suffix, place-Separated,
}
use cs_261_basics_of_compute.Heap.Free.{heap_free-release}

ok_injective : {x y : ℕ × Heap} → ok x ≡ ok y → x ≡ y
ok_injective e = cc

-- A free block behind blocks that it stands apart from.
rejoin_apart :
    (prev : Bool) (xs : List Block) (c : Block) (ys : List Block)
    → c.used ≡ false
    → Separated prev (xs ++ c ∷ ys)
    → rejoin xs (c ∷ ys) ≡ xs ++ c ∷ ys
unfolding rejoin merge
rejoin_apart prev [] c ys idle s = refl
rejoin_apart prev (x ∷ []) c ys idle (o, (o', s)) = ground arith
rejoin_apart prev (x ∷ x' ∷ xs) c ys idle (o, s) =
    ap (◌∷◌ x) (rejoin_apart x.used (x' ∷ xs) c ys idle s)

merge_apart :
    (c : Block) (ys : List Block)
    → c.used ≡ false
    → Separated c.used ys
    → merge (free_block c.size) ys ≡ c ∷ ys
unfolding merge
merge_apart c [] idle s = ground arith
merge_apart c (d ∷ ys) idle (o, s) = ground arith

merge_cut :
    (need : ℕ) (c : Block) (ys : List Block)
    → Fits need c
    → merge (free_block need) (free_block (c.size - need) ∷ ys) ≡ c ∷ ys
unfolding merge
merge_cut need c ys fits = ground arith

-- The used block that a search has made, given back.
module _ (need : ℕ) (xs : List Block) (c : Block) (ys : List Block) (fits : Fits need c)
    (apart : Separated true (xs ++ c ∷ ys)) where
  -- The block in use, and what stands behind it.
  record Taken : Type 0 where
    used : Block
    rest : List Block
    parts : place need c ++ ys ≡ used ∷ rest
    busy : used.used ≡ true
    back : release xs used rest ≡ xs ++ c ∷ ys

  taken : Taken
  unfolding release
  taken = elim (Bool-cases (ltb (need + max_unused_bytes) c.size || ltb (need * 2) c.size)) [
    | inl large ↦ record {
      used = used_block need;
      rest = free_block (c.size - need) ∷ ys;
      parts = ap (λ zs. zs ++ ys) (place_large need c large);
      busy = refl;
      back = ap (rejoin xs) (merge_cut need c ys fits) ∙ rejoin_apart true xs c ys fits.0 apart;
    }
    | inr snug ↦ record {
      used = used_block c.size;
      rest = ys;
      parts = ap (λ zs. zs ++ ys) (place_snug need c snug);
      busy = refl;
      back =
          ap (rejoin xs) (merge_apart c ys fits.0 (Separated-suffix true xs c ys apart))
          ∙ rejoin_apart true xs c ys fits.0 apart;
    }
  ]

pub Prepared-free :
    (h : Heap) (xs : List Block) (c : Block) (ys : List Block) (need : ℕ) (r : ℕ × Heap)
    → Fits need c
    → Separated true (xs ++ c ∷ ys)
    → Prepared h xs c ys need r
    → r.1.mem (r.1.start - 4) < 2 ^ 32
    → Holds (heap_free r.1 r.0) (xs ++ c ∷ ys)
Prepared-free h xs c ys need r fits apart done word =
    let t = taken need xs c ys fits apart in
    let holds : Holds r.1 (xs ++ t.used ∷ t.rest) = rw t.parts at done.holds in
    let still : Separated true (xs ++ t.used ∷ t.rest) =
      rw t.parts at (place-Separated true need xs c ys fits apart) in
    let payload : r.0 ≡ r.1.start + span xs + 4 =
      done.payload ∙ ap (λ (g : Heap). g.start + span xs + 4) (sym done.heap) in
    let back = (heap_free-release r.1 xs t.used t.rest holds still t.busy word).0 in
    rw payload (rw t.back at back)

FirstFit-free :
    (h : Heap) (bs : List Block) (need : ℕ) (r : ℕ × Heap)
    → FirstFit h bs need r
    → Separated true bs
    → r.0 ≢ null
    → r.1.mem (r.1.start - 4) < 2 ^ 32
    → Holds (heap_free r.1 r.0) bs
FirstFit-free h bs need r (refused none_fits) apart ne word = absurd (ne refl)
FirstFit-free h bs need r (granted xs c ys parts fits first done) apart ne word =
    rw parts (Prepared-free h xs c ys need r fits (rw parts at apart) done word)

module _ (h : Heap) (bs : List Block) (user_size fuel : ℕ) (r : ℕ × Heap) (k : Holds h bs)
    (apart : Separated true bs) (request : IsRequest user_size) (enough : length bs < fuel) where
  -- Freeing what `malloc_first_fit` returned gives back the blocks of before the call.
  pub heap_free-malloc_first_fit :
      malloc_first_fit fuel h user_size ≡ ok r
      → r.0 ≢ null
      → r.1.mem (r.1.start - 4) < 2 ^ 32
      → Holds (heap_free r.1 r.0) bs
  heap_free-malloc_first_fit run ne word =
      let (q, run', fit) = malloc_first_fit-FirstFit h bs user_size fuel k request enough in
      let same : q ≡ r = ok_injective (sym run' ∙ run) in
      FirstFit-free h bs (user_size + 8) r (rw same at fit) apart ne word
