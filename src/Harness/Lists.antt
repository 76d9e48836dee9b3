-- ===== src/Harness/Lists.antt =====
-- The arrays of lab5/implicit-test.c: each holds what its heap has granted and not got back, once.
use cs_261_basics_of_compute.Prelude.{
  ℕ, suc, ◌+◌, ◌<◌, ◌≡◌, ◌≢◌, ◌⊎◌, inl, inr, refl, true, false, ◌||◌, ◌==◌, if◌then◌else◌, arith,
  Bool-cases, sym, ◌∙◌,
}
use cs_261_basics_of_compute.Prelude.Store.{write, write_self, write_ne}
use cs_261_basics_of_compute.Heap.Layout.{null}
use cs_261_basics_of_compute.Heap.Session.{Live}

-- The first `nb` cells hold `NULL` and the payloads that are held, each of these once.
pub record Lists (live : Live) (nb : ℕ) (array : ℕ → ℕ) : Type 0 where
  pub held : (i : ℕ) → i < nb → (array i ≡ null) ⊎ (live (array i) ≡ true)
  pub once : (i j : ℕ) → i < nb → j < nb → array i ≡ array j → (i ≡ j) ⊎ (array i ≡ null)
  pub listed : (q : ℕ) → live q ≡ true → (i : ℕ) × (i < nb) × (array i ≡ q)
  pub not_null : live null ≡ false

pub opened-Lists : (array : ℕ → ℕ) → Lists (λ q. false) 0 array
opened-Lists array = record {
  held = λ i l. absurd (omega arith);
  once = λ i j l l' e. absurd (omega arith);
  listed = λ q e. absurd (ground (arith, e));
  not_null = refl;
}

module _ (live : Live) (nb : ℕ) (array : ℕ → ℕ) (p : ℕ) (lists : Lists live nb array)
    (new : (p ≡ null) ⊎ (live p ≡ false)) where
  abbrev pub more : Live
  more q = if q == null then live q else (q == p) || live q

  granted_held :
      (i : ℕ) → i < nb + 1 → (write array nb p i ≡ null) ⊎ (more (write array nb p i) ≡ true)
  unfolding write
  granted_held i l = elim (Bool-cases (i == nb)) [
    | inl here ↦ rw here (ground arith)
    | inr there ↦ rw there (ground (arith, lists.held i (ground arith)))
  ]

  new_once : (j : ℕ) → j < nb → array j ≡ p → p ≡ null
  new_once j l e = elim (lists.held j l) [
    | inl none ↦ sym e ∙ none
    | inr old ↦ elim new [
      | inl none ↦ none
      | inr fresh ↦ let same : live p ≡ true = rw e at old in absurd (ground (arith, same, fresh))
    ]
  ]

  granted_once :
      (i j : ℕ)
      → i < nb + 1
      → j < nb + 1
      → write array nb p i ≡ write array nb p j
      → (i ≡ j) ⊎ (write array nb p i ≡ null)
  unfolding write
  granted_once i j l l' e = elim (Bool-cases (i == nb)) [
    | inl here ↦ elim (Bool-cases (j == nb)) [
      | inl here' ↦ inl (ground (arith, here, here'))
      | inr there' ↦
          let same : p ≡ array j = rw (here, there') at e in
          inr (rw here (new_once j (ground (arith, there')) (sym same)))
    ]
    | inr there ↦ elim (Bool-cases (j == nb)) [
      | inl here' ↦
          let same : array i ≡ p = rw (there, here') at e in
          inr (rw there (same ∙ new_once i (ground (arith, there)) same))
      | inr there' ↦
          let same : array i ≡ array j = rw (there, there') at e in
          rw there (lists.once i j (ground (arith, there)) (ground (arith, there')) same)
    ]
  ]

  granted_listed : (q : ℕ) → more q ≡ true → (i : ℕ) × (i < nb + 1) × (write array nb p i ≡ q)
  granted_listed q e = elim (Bool-cases (live q)) [
    | inl old ↦
        let (i, l, at) = lists.listed q old in
        (i, omega arith, rw (write_ne array nb p i (omega arith)) at)
    | inr fresh ↦
        let same : q ≡ p = ground (arith, e, fresh) in
        (nb, omega arith, rw (write_self array nb p) (sym same))
  ]

  pub granted-Lists : Lists more (nb + 1) (write array nb p)
  granted-Lists = record {
    held = granted_held;
    once = granted_once;
    listed = granted_listed;
    not_null = ground (arith, lists.not_null);
  }

module _ (live : Live) (last : ℕ) (array : ℕ → ℕ) (lists : Lists live (suc last) array) (index : ℕ)
    (inside : index < suc last) (live' : Live)
    (left : (q : ℕ) → live' q ≡ true → (live q ≡ true) × (q ≢ array index))
    (stays : (q : ℕ) → live q ≡ true → q ≢ array index → live' q ≡ true) where
  stays_held : (i : ℕ) → i < suc last → i ≢ index → (array i ≡ null) ⊎ (live' (array i) ≡ true)
  stays_held i l other = elim (lists.held i l) [
    | inl none ↦ inl none
    | inr old ↦ elim (Bool-cases (array i == array index)) [
      | inr apart ↦ inr (stays (array i) old (ground (arith, apart)))
      | inl same ↦ elim (lists.once i index l inside (ground (arith, same))) [
        | inl equal ↦ absurd (other equal)
        | inr none ↦ inl none
      ]
    ]
  ]

  moved_held :
      (i : ℕ)
      → i < last
      → (write array index (array last) i ≡ null)
        ⊎ (live' (write array index (array last) i) ≡ true)
  unfolding write
  moved_held i l = elim (Bool-cases (i == index)) [
    | inl here ↦ rw here (stays_held last (omega arith) (ground (arith, here)))
    | inr there ↦ rw there (stays_held i (omega arith) (ground (arith, there)))
  ]

  moved_once :
      (i j : ℕ)
      → i < last
      → j < last
      → write array index (array last) i ≡ write array index (array last) j
      → (i ≡ j) ⊎ (write array index (array last) i ≡ null)
  unfolding write
  moved_once i j l l' e = elim (Bool-cases (i == index)) [
    | inl here ↦ elim (Bool-cases (j == index)) [
      | inl here' ↦ inl (ground (arith, here, here'))
      | inr there' ↦
          let same : array last ≡ array j = rw (here, there') at e in
          rw here (ground (arith, lists.once last j (omega arith) (omega arith) same))
    ]
    | inr there ↦ elim (Bool-cases (j == index)) [
      | inl here' ↦
          let same : array i ≡ array last = rw (there, here') at e in
          rw there (ground (arith, lists.once i last (omega arith) (omega arith) same))
      | inr there' ↦
          let same : array i ≡ array j = rw (there, there') at e in
          rw there (lists.once i j (omega arith) (omega arith) same)
    ]
  ]

  moved_listed :
      (q : ℕ) → live' q ≡ true → (i : ℕ) × (i < last) × (write array index (array last) i ≡ q)
  moved_listed q e =
      let (old, other) = left q e in
      let (i, l, at) = lists.listed q old in
      let away : i ≢ index = λ eq. other (rw eq at (sym at)) in
      elim (Bool-cases (i == last)) [
        | inl end ↦
            let same : i ≡ last = ground (arith, end) in
            (
              index,
              omega (arith, λ (h : index ≡ last). away (same ∙ sym h)),
              write_self array index (array last) ∙ (rw same at at),
            )
        | inr before ↦ (i, ground (arith, before), write_ne array index (array last) i away ∙ at)
      ]

  pub moved-Lists : Lists live' last (write array index (array last))
  moved-Lists = record {
    held = moved_held;
    once = moved_once;
    listed = moved_listed;
    not_null = elim (Bool-cases (live' null)) [
      | inr none ↦ none
      | inl is ↦ absurd (ground (arith, (left null is).0, lists.not_null))
    ];
  }
