-- ===== src/Mask/Runs.antt =====
-- The two loops of lab6/timemask.c: trials of a filter on a copy of the image find nothing wrong.
use mathlib.Core.List.{append_assoc, append-nil}
use cs_261_basics_of_compute.Prelude.{
  ℕ, zero, suc, ◌+◌, ◌*◌, ◌%◌, ◌<◌, ◌≡◌, ◌⊎◌, inl, inr, refl, sym, ap, ◌∙◌, fun_ext, arith, List,
  [], ◌∷◌, ◌++◌,
}
use cs_261_basics_of_compute.Prelude.Int.{ℤ}
use cs_261_basics_of_compute.Mask.Long.{modulus}
use cs_261_basics_of_compute.Mask.Defs.{Image, Result, mask}
use cs_261_basics_of_compute.Mask.Kernel.{filtered}
use cs_261_basics_of_compute.Mask.Agree.{image_total, IsFiltered, base_mask-IsFiltered}
use cs_261_basics_of_compute.Mask.Equal.{mask-base_mask}
use cs_261_basics_of_compute.Mask.Main.{
  Event, World, usec_clock, memset_long, Trials, trial_round, trial_loop,
}
use cs_261_basics_of_compute.Mask.Alike.{Alike, filtered_cong, count_different_pixels-Alike}

-- The checksum of the filtered image.
abbrev pub check_of : Image → (rows cols : ℕ) → ℕ
check_of image rows cols = image_total rows cols (filtered image rows cols) % modulus

then_printed :
    (o o1 o2 : List Event) (x : Event) (lines : ℕ → List Event) (c c1 : ℕ)
    → o1 ≡ o ++ (x ∷ [])
    → c1 ≡ c
    → o2 ≡ o1 ++ lines c1
    → o2 ≡ o ++ (x ∷ lines c)
then_printed o o1 o2 x lines c c1 e1 e2 e3 = e3 ∙ rw (e1, e2) (append_assoc o (x ∷ []) (lines c))

pub then_lines :
    (o o1 between : List Event) (lines : ℕ → List Event) (c c1 : ℕ)
    → o1 ≡ o
    → c1 ≡ c
    → (o1 ++ between) ++ lines c1 ≡ (o ++ between) ++ lines c
then_lines o o1 between lines c c1 e1 e2 = rw (e1, e2) refl

-- A line for each trial, all with one checksum.
unfoldable pub run_lines :
    World → (line : ℕ → ℕ → ℤ → Event) (check rounds trial calls : ℕ) → List Event
run_lines w line check zero trial calls = []
run_lines w line check (suc rounds) trial calls =
    line trial check (usec_clock w.timersub (w.now (2 * calls)) (w.now (2 * calls + 1)))
    ∷ run_lines w line check rounds (trial + 1) (calls + 1)

pub mask-IsFiltered :
    (old new : Image) (rows cols : ℕ) → IsFiltered old new rows cols (mask old new rows cols)
mask-IsFiltered old new rows cols =
    rw (mask-base_mask old new rows cols) (base_mask-IsFiltered old new rows cols)

module _ (w : World) (image answer : Image) (rows cols : ℕ)
    (right : Alike rows cols (filtered image rows cols) answer)
    (filter : Image → Image → ℕ → ℕ → Result)
    (filters : (old new : Image) → IsFiltered old new rows cols (filter old new rows cols))
    (line : ℕ → ℕ → ℤ → Event) where
  IsFiltered-Alike :
      (old new : Image) (r : Result)
      → IsFiltered old new rows cols r
      → Alike rows cols image old
      → Alike rows cols r.image (filtered image rows cols)
  IsFiltered-Alike old new r f alike i j p q =
      ground (arith, f.image i j, filtered_cong rows cols image old alike i j)

  IsFiltered-check :
      (old new : Image) (r : Result)
      → IsFiltered old new rows cols r
      → Alike rows cols image old
      → r.check ≡ check_of image rows cols
  IsFiltered-check old new r f alike =
      let same : filtered old rows cols ≡ filtered image rows cols =
        fun_ext (λ i. fun_ext (λ j. sym (filtered_cong rows cols image old alike i j))) in
      f.check ∙ ap (λ g. image_total rows cols g % modulus) same

  -- Trials on a copy of the image find nothing wrong.
  pub record Went (rounds trial : ℕ) (s s' : Trials) : Type 0 where
    pub copied : s'.trial_image ≡ s.trial_image
    pub called : s'.calls ≡ s.calls + rounds
    pub printed :
        s'.output ≡ s.output ++ run_lines w line (check_of image rows cols) rounds trial s.calls
    pub answered :
        (0 < rounds) ⊎ Alike rows cols s.trial_answer (filtered image rows cols)
        → Alike rows cols s'.trial_answer (filtered image rows cols)

  round-Went :
      (trial : ℕ) (s : Trials)
      → Alike rows cols image s.trial_image
      → Went 1 trial s (trial_round w image answer rows cols filter line trial s)
  unfolding trial_round run_lines
  round-Went trial s alike =
      let new = memset_long (w.rand s.calls) in
      let res = filter s.trial_image new rows cols in
      let f = filters s.trial_image new in
      let good = IsFiltered-Alike s.trial_image new res f alike in
      let none = count_different_pixels-Alike rows cols image s.trial_image alike in
      let none' =
        count_different_pixels-Alike rows cols res.image answer
          (λ i j p q. good i j p q ∙ right i j p q) in
      let check = IsFiltered-check s.trial_image new res f alike in
      record {
        copied = rw none refl;
        called = refl;
        printed = rw (none, none', check) refl;
        answered = λ _. good;
      }

  pub loop-Went :
      (rounds trial : ℕ) (s : Trials)
      → Alike rows cols image s.trial_image
      → Went rounds trial s (trial_loop w image answer rows cols filter line rounds trial s)
  unfolding trial_loop run_lines
  loop-Went zero trial s alike = record {
    copied = refl;
    called = omega arith;
    printed = sym (append-nil s.output);
    answered = λ either. elim either [ inl l ↦ absurd (omega arith) | inr a ↦ a ];
  }
  loop-Went (suc rounds) trial s alike =
      let s1 = trial_round w image answer rows cols filter line trial s in
      let one = round-Went trial s alike in
      let more = loop-Went rounds (trial + 1) s1 (rw one.copied alike) in
      record {
        copied = more.copied ∙ one.copied;
        called = omega (arith, more.called, one.called);
        printed =
            then_printed s.output s1.output _ _ (run_lines w line _ rounds (trial + 1))
              (s.calls + 1) s1.calls one.printed one.called more.printed;
        answered = λ either. more.answered (inr (one.answered (inl (omega arith))));
      }
