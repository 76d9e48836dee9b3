-- ===== src/Harness/Kept.antt =====
-- One heap of lab5/implicit-test.c and its array, through a request and a release.
use cs_261_basics_of_compute.Prelude.{
  ℕ, suc, ◌+◌, ◌<◌, ◌≡◌, inl, inr, refl, true, false, not, ◌&&◌, ltb, ◌==◌, arith, Bool-cases, ap,
  ◌∙◌,
}
use cs_261_basics_of_compute.Prelude.Run.{ok}
use cs_261_basics_of_compute.Prelude.Store.{write}
use cs_261_basics_of_compute.Heap.Layout.{Heap, null}
use cs_261_basics_of_compute.Heap.Prepare.{IsRequest}
use cs_261_basics_of_compute.Heap.Session.{Tidy, Live, Session, opened, requested, given_back}
use cs_261_basics_of_compute.Heap.Orderly.{Session-Orderly}
use cs_261_basics_of_compute.Harness.Defs.{Trial, malloc_into, free_at, max_pointers}
use cs_261_basics_of_compute.Harness.Lists.{Lists, opened-Lists, more, granted-Lists, moved-Lists}

-- The heap has come about by requests and releases of what was held, and the array lists what is
-- held now.
pub record Kept (fuel : ℕ) (h : Heap) (nb : ℕ) (t : Trial) : Type 0 where
  pub live : Live
  pub session : Session fuel h t.heap live
  pub lists : Lists live nb t.pointer_array

pub opened-Kept : (fuel : ℕ) (t : Trial) → Kept fuel t.heap 0 t
opened-Kept fuel t = record {
  live = λ q. false;
  session = opened;
  lists = opened-Lists t.pointer_array;
}

module _ (fuel : ℕ) (h : Heap) (t : Trial) where
  pub malloc_into-Kept :
      (nb user_size : ℕ)
      → Tidy fuel h
      → Kept fuel h nb t
      → IsRequest user_size
      → nb < max_pointers
      → (t' : Trial) × (malloc_into null fuel user_size nb t ≡ ok t') × Kept fuel h (nb + 1) t'
  unfolding malloc_into
  malloc_into-Kept nb u tidy k request room =
      let ((p, h'), run, new) = (Session-Orderly fuel h t.heap k.live tidy k.session).1 u request in
      let fits : ltb nb max_pointers ≡ true = ground arith in
      (
        record { heap = h'; pointer_array = write t.pointer_array nb p },
        rw (run, fits) refl,
        record {
          live = more k.live nb t.pointer_array p k.lists new;
          session = requested u k.session request run;
          lists = granted-Lists k.live nb t.pointer_array p k.lists new;
        },
      )

  pub free_at-Kept :
      (index last : ℕ)
      → Kept fuel h (suc last) t
      → index < suc last
      → Kept fuel h last (free_at index last t)
  unfolding free_at
  free_at-Kept index last k inside =
      let p : ℕ = t.pointer_array index in
      elim (Bool-cases (p == null)) [
        | inl none ↦
            let empty : p ≡ null = ground (arith, none) in
            rw none (record {
              live = k.live;
              session = k.session;
              lists =
                  moved-Lists k.live last t.pointer_array k.lists index inside k.live
                    (λ q l. (l, λ e. ground (arith, ap k.live (e ∙ empty), l, k.lists.not_null)))
                    (λ q l ne. l);
            })
        | inr is ↦
            let held : k.live p ≡ true = elim (k.lists.held index inside) [
              | inl none ↦ absurd (ground (arith, is, none))
              | inr l ↦ l
            ] in
            rw is (record {
              live = λ q. not (q == p) && k.live q;
              session = given_back p k.session held;
              lists =
                  moved-Lists k.live last t.pointer_array k.lists index inside
                    (λ q. not (q == p) && k.live q)
                    (λ q l. (ground (arith, l), λ e. ground (arith, l, e)))
                    (λ q l ne. ground (arith, l));
            })
      ]
