-- ===== src/Heap/Orderly.antt =====
-- What the requests and releases of a program keep up in the allocator of lab5/implicit.c.
use cs_261_basics_of_compute.Prelude.{
  ◌==◌, not, ◌&&◌, if◌then◌else◌, ◌⊎◌, inl, inr, Bool-cases, ◌||◌, ℕ, ◌+◌, ◌-◌, ◌*◌, ◌≤◌, ◌<◌, ◌≡◌,
  ◌≢◌, refl, true, false, List, [], ◌∷◌, ◌++◌, arith, length, ap, sym, ◌∙◌,
}
use cs_261_basics_of_compute.Heap.Layout.{SearchAlg, firstfit, nextfit, bestfit, Heap, null}
use cs_261_basics_of_compute.Heap.Search.{ok, heap_malloc, malloc_with}
use cs_261_basics_of_compute.Heap.Release.{heap_free}
use cs_261_basics_of_compute.Heap.Chain.{Block, free_block, Chain, span, Chain-span}
use cs_261_basics_of_compute.Heap.Policy.{Fits, place}
use cs_261_basics_of_compute.Heap.Prepare.{IsRequest, Prepared}
use cs_261_basics_of_compute.Heap.Fit.{FirstFit, malloc_first_fit-FirstFit}
use cs_261_basics_of_compute.Heap.BestFit.{BestFit, malloc_best_fit-BestFit}
use cs_261_basics_of_compute.Heap.Merge.{release, place-Separated}
use cs_261_basics_of_compute.Heap.Free.{heap_free-release}
use cs_261_basics_of_compute.Heap.InUse.{
  InUse, InUse-shift, InUse-suffix, InUse-prefix, place-InUse, place_here, release-InUse,
  InUse-Between, free-InUse,
}
use cs_261_basics_of_compute.Heap.Created.{IsFresh}
use cs_261_basics_of_compute.Heap.Words.{Words, heap_free-Same}
use cs_261_basics_of_compute.Heap.Session.{
  Tidy, Live, AreInUse, Session, opened, requested, given_back, Orderly,
}

length-span : (m : ℕ → ℕ) (a e : ℕ) (bs : List Block) → Chain m a bs e → 8 * length bs ≤ span bs
length-span m a e [] k = omega arith
length-span m a e (b ∷ bs) (i, k) =
    let shape = i.shape in omega (arith, length-span m (a + b.size) e bs k)

module _ (fuel : ℕ) (h : Heap) (t : Tidy fuel h) where
  few_blocks : length t.blocks < fuel
  few_blocks =
      let chain = t.holds.chain in
      omega (
        arith,
        length-span h.mem h.start (h.start + h.size) t.blocks chain,
        Chain-span h.mem h.start (h.start + h.size) t.blocks chain,
        t.room,
      )

  -- What a request comes to, for the payloads that are held.
  record Granted (live : Live) (r : ℕ × Heap) : Type 0 where
    tidy : Tidy fuel r.1
    held : AreInUse r.1 tidy.blocks live
    new : (r.0 ≡ null) ⊎ (InUse r.1.start r.0 tidy.blocks × (live r.0 ≡ false))

  module _ (live : Live) (in_use : AreInUse h t.blocks live) where
    refused-Granted : Granted live (null, h)
    refused-Granted = record { tidy = t; held = in_use; new = inl refl }

    Prepared-Granted :
        (xs : List Block) (c : Block) (ys : List Block) (need : ℕ) (r : ℕ × Heap)
        → t.blocks ≡ xs ++ c ∷ ys
        → Fits need c
        → Prepared h xs c ys need r
        → Granted live r
    Prepared-Granted xs c ys need r parts fits done =
        let start : h.start ≡ r.1.start = ap (λ (g : Heap). g.start) (sym done.heap) in
        record {
          tidy = record {
            blocks = xs ++ (place need c ++ ys);
            holds = done.holds;
            apart = place-Separated true need xs c ys fits (rw parts at t.apart);
            words = done.words t.words;
            policy = λ e. t.policy (sym (ap (λ (g : Heap). g.search_alg) done.heap) ∙ e);
            room = omega (arith, ap (λ (g : Heap). g.size) done.heap, t.room);
          };
          held = λ q l. InUse-shift start (
              InUse-prefix h.start q xs (c ∷ ys) (place need c ++ ys) (rw parts at (in_use q l))
                (λ i. place-InUse (h.start + span xs) q need c ys fits i));
          new = inr (
            rw done.payload (
                InUse-shift start (
                  InUse-suffix h.start (h.start + span xs + 4) xs (place need c ++ ys)
                    (place_here (h.start + span xs) need c ys))),
            elim (Bool-cases (live r.0)) [
              | inl l ↦ absurd (
                  free-InUse h.mem h.start (h.start + h.size) r.0 xs c ys
                    (rw parts at t.holds.chain) fits.0 (rw parts at (in_use r.0 l)) done.payload)
              | inr new ↦ new
            ],
          );
        }

    FirstFit-Granted : (need : ℕ) (r : ℕ × Heap) → FirstFit h t.blocks need r → Granted live r
    FirstFit-Granted need r (FirstFit.refused n) = refused-Granted
    FirstFit-Granted need r (FirstFit.granted xs c ys parts fits first done) =
        Prepared-Granted xs c ys need r parts fits done

    BestFit-Granted : (need : ℕ) (r : ℕ × Heap) → BestFit h t.blocks need r → Granted live r
    BestFit-Granted need r (BestFit.refused n) = refused-Granted
    BestFit-Granted need r (BestFit.granted xs c ys parts fits least done) =
        Prepared-Granted xs c ys need r parts fits done

    alg-Granted :
        (user_size : ℕ)
        → IsRequest user_size
        → (alg : SearchAlg) → alg ≢ nextfit
        → (q : ℕ × Heap) × (malloc_with alg null fuel h user_size ≡ ok q) × Granted live q
    unfolding malloc_with
    alg-Granted user_size request firstfit ne =
        let (q, run, fit) =
          malloc_first_fit-FirstFit h t.blocks user_size fuel t.holds request few_blocks in
        (q, run, FirstFit-Granted (user_size + 8) q fit)
    alg-Granted user_size request bestfit ne =
        let (q, run, fit) =
          malloc_best_fit-BestFit h t.blocks user_size fuel t.holds request few_blocks in
        (q, run, BestFit-Granted (user_size + 8) q fit)
    alg-Granted user_size request nextfit ne = absurd (ne refl)

    heap_malloc-Granted :
        (user_size : ℕ)
        → IsRequest user_size
        → (q : ℕ × Heap) × (heap_malloc null fuel h user_size ≡ ok q) × Granted live q
    unfolding heap_malloc
    heap_malloc-Granted user_size request = alg-Granted user_size request h.search_alg t.policy

ok_injective : {x y : ℕ × Heap} → ok x ≡ ok y → x ≡ y
ok_injective e = cc

-- A payload that is held after a request was held before, or is the new one.
held_new :
    (h : Heap) (bs : List Block) (live : Live) (p x : ℕ)
    → AreInUse h bs live
    → ((p ≡ null) ⊎ (InUse h.start p bs × (live p ≡ false)))
    → (if x == null then live x else (x == p) || live x) ≡ true
    → InUse h.start x bs
held_new h bs live p x held new l = elim (Bool-cases (live x)) [
  | inl old ↦ held x old
  | inr fresh ↦ elim new [
    | inl none ↦ absurd (ground (arith, none, l, fresh))
    | inr (i, _) ↦ let same : p ≡ x = ground (arith, l, fresh) in rw same at i
  ]
]

requested-Orderly :
    (fuel : ℕ) (h : Heap) (live : Live) (user_size p : ℕ) (h' : Heap)
    → Orderly fuel h live
    → IsRequest user_size
    → heap_malloc null fuel h user_size ≡ ok (p, h')
    → Orderly fuel h' (λ q. if q == null then live q else (q == p) || live q)
requested-Orderly fuel h live u p h' o r run =
    let (q, run', granted) = heap_malloc-Granted fuel h o.tidy live o.held u r in
    let g : Granted fuel h o.tidy live (p, h') =
      let same = ok_injective (sym run' ∙ run) in rw same at granted in
    record { tidy = g.tidy; held = λ x l. held_new h' g.tidy.blocks live p x g.held g.new l }

given_back-Orderly :
    (fuel : ℕ) (h : Heap) (live : Live) (p : ℕ)
    → Orderly fuel h live
    → live p ≡ true
    → Orderly fuel (heap_free h p) (λ q. not (q == p) && live q)
given_back-Orderly fuel h live p o is_live =
    let t = o.tidy in
    let b = InUse-Between (o.held p is_live) in
    let kept = heap_free-Same h p in
    let (holds, apart) =
      heap_free-release h b.before b.block b.after (rw b.parts at t.holds) (rw b.parts at t.apart)
        b.used (t.words (h.start - 4)) in
    record {
      tidy = record {
        blocks = release b.before b.block b.after;
        holds = rw b.place holds;
        apart = apart;
        words = kept.words t.words;
        policy = λ e. t.policy (sym kept.search_alg ∙ e);
        room = omega (arith, kept.size, t.room);
      };
      held = λ q l.
          let other : q ≢ p = λ e. ground (arith, l) in
          let still : live q ≡ true = ground (arith, l) in
          InUse-shift (sym kept.start) (
            release-InUse h.start q b.before b.block b.after (λ e. other (e ∙ sym b.place))
              (rw b.parts at (o.held q still)));
    }

reached-Orderly :
    (fuel : ℕ) {h h' : Heap} {live : Live}
    → Tidy fuel h
    → Session fuel h h' live
    → Orderly fuel h' live
reached-Orderly fuel t opened = record { tidy = t; held = λ q l. ground (arith, l) }
reached-Orderly fuel t (requested {h1 = h1} {h2 = h2} {live = live} {p = p} u s r run) =
    requested-Orderly fuel h1 live u p h2 (reached-Orderly fuel t s) r run
reached-Orderly fuel t (given_back {h1 = h1} {live = live} p s l) =
    given_back-Orderly fuel h1 live p (reached-Orderly fuel t s) l

-- From a tidy heap, under first fit or best fit, in every heap that a program comes to by requests
-- for a multiple of eight bytes, fewer than 2^32 - 8, and by giving back what it holds, each
-- payload that it holds is that of a block in use, and no two neighbours are free. The next such
-- request has a result: `NULL`, or a payload that the program does not hold yet.
pub Session-Orderly :
    (fuel : ℕ) (h h' : Heap) (live : Live)
    → Tidy fuel h
    → Session fuel h h' live
    → Orderly fuel h' live
      × ((user_size : ℕ)
          → IsRequest user_size
          → (q : ℕ × Heap) × (heap_malloc null fuel h' user_size ≡ ok q)
            × ((q.0 ≡ null) ⊎ (live q.0 ≡ false)))
Session-Orderly fuel h h' live t s =
    let o = reached-Orderly fuel t s in
    (
      o,
      λ u r.
          let (q, run, granted) = heap_malloc-Granted fuel h' o.tidy live o.held u r in
          (q, run, elim granted.new [ inl none ↦ inl none | inr (i, new) ↦ inr new ]),
    )

-- A heap that `heap_create` has made is tidy.
pub IsFresh-Tidy :
    (fuel brk size : ℕ) (alg : SearchAlg) (h : Heap)
    → IsFresh brk size alg h
    → alg ≢ nextfit
    → Words h.mem
    → h.size < 8 * fuel
    → Tidy fuel h
IsFresh-Tidy fuel brk size alg h f ne words room = record {
  blocks = free_block h.size ∷ [];
  holds = f.holds;
  apart = (inl refl, tt);
  words = words;
  policy = λ e. ne (sym f.search_alg ∙ e);
  room = room;
}
