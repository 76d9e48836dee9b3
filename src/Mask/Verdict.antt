-- ===== src/Mask/Verdict.antt =====
-- What a run of lab6/timemask.c prints and writes.
use cs_261_basics_of_compute.Prelude.{
  ◌≢◌, ◌⊎◌, inr, true, none, some, ◌==◌, Bool-cases, sym, ℕ, suc, ◌≤◌, ◌≡◌, inl, refl, ap, ◌∙◌,
  false, ◌||◌, Bool, Option, arith, ltb, if◌then◌else◌, List, [], ◌∷◌, ◌++◌,
}
use cs_261_basics_of_compute.Prelude.Int.{ℤ, pos, negsuc}
use cs_261_basics_of_compute.Prelude.Run.{ok}
use cs_261_basics_of_compute.Mask.Defs.{Image, base_mask, mask}
use cs_261_basics_of_compute.Mask.Kernel.{filtered}
use cs_261_basics_of_compute.Mask.Agree.{base_mask-IsFiltered}
use cs_261_basics_of_compute.Mask.Compare.{copy}
use cs_261_basics_of_compute.Mask.Pgm.{File, loaded, read_image}
use mathlib.Core.List.{append-nil}
use cs_261_basics_of_compute.Mask.Saved.{IsPgm, write_image-IsPgm}
use cs_261_basics_of_compute.Mask.Main.{
  Ending, saving, cannot_open, Event, processing, base_run, optimized_run, base_took,
  optimized_took, World, long_max, Trials, trial_loop, average, save, run_trials, main,
}
use cs_261_basics_of_compute.Mask.Runs.{check_of, run_lines, then_lines, mask-IsFiltered, loop-Went}
use cs_261_basics_of_compute.Mask.Alike.{
  Alike, count_different_pixels-Alike, write_image_cong, copy-Alike,
}

average_lem : (total : ℤ) (n : ℕ) → (a : ℤ) × (average total (pos (suc n)) ≡ ok a)
unfolding average
average_lem (pos t) n = (_, refl)
average_lem (negsuc t) n = (_, refl)

save_cong :
    (argc : ℕ) (writable : Bool) (rows cols white : ℕ) (a b : Image) (o o' : List Event)
    → Alike rows cols a b
    → o ≡ o'
    → save argc writable rows cols white a o ≡ save argc writable rows cols white b o'
unfolding save
save_cong argc writable rows cols white a b o o' alike e =
    rw (write_image_cong rows cols a b alike white, e) refl

-- What is printed, with a line for each of the n + 1 trials of either filter.
abbrev pub printed_lines :
    World → (n rows cols : ℕ) → Image → (best average1 best' average2 total' total : ℤ) → List Event
printed_lines w n rows cols image best average1 best' average2 total' total =
    ((((processing rows cols (pos (suc n)) (check_of image rows cols) ∷ [])
          ++ run_lines w base_run (check_of image rows cols) (suc n) 0 0)
        ++ (base_took best average1 ∷ []))
      ++ run_lines w optimized_run (check_of image rows cols) (suc n) 0 (suc n))
    ++ (optimized_took best' best average2 total' total ∷ [])

module _ (w : World) (argc n : ℕ) (writable : Bool) (rows cols white : ℕ) (image : Image) where
  run_trials_lem :
      (best average1 best' average2 total' total : ℤ) × (run_trials w argc
          (pos (suc n))
          writable
          rows
          cols
          white
          image
        ≡ ok (
            save argc writable rows cols white
              (filtered image rows cols)
              (printed_lines w n rows cols image best average1 best' average2 total' total)))
  unfolding run_trials
  run_trials_lem =
      let trial_image = copy image (λ _ _. 0) rows cols in
      let alike = copy-Alike rows cols image (λ _ _. 0) in
      let base = base_mask image (λ _ _. 0) rows cols in
      let f = base_mask-IsFiltered image (λ _ _. 0) rows cols in
      let right : Alike rows cols (filtered image rows cols) base.image =
        λ i j p q. ground (arith, f.image i j) in
      let none = count_different_pixels-Alike rows cols image trial_image alike in
      let s0 : Trials = record {
        trial_image = trial_image;
        trial_answer = λ _ _. 0;
        besttime = long_max;
        totaltime = pos 0;
        calls = 0;
        output = processing rows cols (pos (suc n)) (check_of image rows cols) ∷ [];
      } in
      let s1 = trial_loop w image base.image rows cols base_mask base_run (suc n) 0 s0 in
      let went1 =
        loop-Went w image base.image rows cols right base_mask
          (λ old new. base_mask-IsFiltered old new rows cols) base_run (suc n) 0 s0 alike in
      let (average1, e1) = average_lem s1.totaltime n in
      let s2 : Trials = record s1 {
        besttime = long_max;
        totaltime = pos 0;
        output = s1.output ++ (base_took s1.besttime average1 ∷ []);
      } in
      let s3 = trial_loop w image base.image rows cols mask optimized_run (suc n) 0 s2 in
      let went2 =
        loop-Went w image base.image rows cols right mask
          (λ old new. mask-IsFiltered old new rows cols) optimized_run (suc n) 0 s2
          (rw went1.copied alike) in
      let (average2, e2) = average_lem s3.totaltime n in
      let good = went2.answered (inl (omega arith)) in
      (
        s1.besttime,
        average1,
        s3.besttime,
        average2,
        s3.totaltime,
        s1.totaltime,
        rw (none, f.check, e1, e2)
            (ap ok (
              save_cong argc writable rows cols white s3.trial_answer (filtered image rows cols) _ _
                good
                (ap
                  (λ o.
                    o
                    ++ (optimized_took s3.besttime s1.besttime average2 s3.totaltime s1.totaltime
                        ∷ []))
                  (went2.printed
                    ∙ then_lines _ s1.output (base_took s1.besttime average1 ∷ [])
                        (run_lines w optimized_run (check_of image rows cols) (suc n) 0) (suc n)
                        s1.calls went1.printed (omega (arith, went1.called)))))),
      )

-- How the program ends: with 0, and what it has printed, which are `lines` and what is said of the file
-- that is asked for by the third argument; and what it has written, which is this file, if it can be
-- opened, and else nothing.
pub record IsSaved (argc : ℕ) (writable : Bool) (rows cols white : ℕ) (image : Image)
    (lines : List Event) (e : Ending) : Type 0 where
  pub code : e.code ≡ pos 0
  pub output :
      e.output
      ≡ lines
        ++ (if argc == 4 then (if writable then saving ∷ [] else saving ∷ cannot_open ∷ []) else [])
  pub saved :
      argc ≡ 4
      → writable ≡ true
      → (file : File) × (e.saved ≡ some file) × IsPgm rows cols white image file
  pub unsaved : (argc ≢ 4) ⊎ (writable ≡ false) → e.saved ≡ none

save-IsSaved :
    (argc : ℕ) (writable : Bool) (rows cols white : ℕ) (image : Image) (lines : List Event)
    → argc ≤ 4
    → IsSaved argc writable rows cols white image lines
        (save argc writable rows cols white image lines)
unfolding save
save-IsSaved argc writable rows cols white image lines hi = elim (Bool-cases (argc == 4)) [
  | inr other ↦
      let few : ltb 3 argc ≡ false = ground (arith, other) in
      rw few (record {
        code = refl;
        output = rw other (sym (append-nil lines));
        saved = λ e w. absurd (ground (arith, other, e));
        unsaved = λ e. refl;
      })
  | inl all ↦
      let more : ltb 3 argc ≡ true = ground (arith, all) in
      let four : argc ≡ 4 = ground (arith, all) in
      elim (Bool-cases writable) [
        | inl opened ↦
            rw (more, opened)
              (record {
                code = refl;
                output = rw all refl;
                saved = λ e w. (_, refl, write_image-IsPgm rows cols white image);
                unsaved = λ e. elim e [
                  | inl ne ↦ absurd (ne four)
                  | inr shut ↦ absurd (ground (arith, shut))
                ];
              })
        | inr shut ↦
            rw (more, shut)
              (record {
                code = refl;
                output = rw all refl;
                saved = λ e w. absurd (ground (arith, w));
                unsaved = λ e. refl;
              })
      ]
]

-- If an image is read and the number of trials, 10 or what the second argument says, is not zero or
-- negative, the program ends with 0. It prints a line for each trial of either filter, each with the
-- checksum of the filtered image, and no problem. With a third argument it says that it saves the
-- result, and either writes a PGM file with the rows, the columns and the white of the image, whose
-- bytes are the low bytes of the filtered image, or says that the file cannot be opened; without one it
-- writes nothing.
pub main-save :
    (w : World) (fuel argc : ℕ) (strtol : ℤ) (source : Option File) (writable : Bool)
    (rows cols white n : ℕ) (image : Image)
    → 2 ≤ argc
    → argc ≤ 4
    → read_image fuel source (λ _ _. 0) ≡ ok (loaded rows cols white image)
    → (if ltb 2 argc then strtol else pos 10) ≡ pos (suc n)
    → (e : Ending) × (main w fuel argc strtol source writable ≡ ok e)
      × (best average1 best' average2 total' total : ℤ) × IsSaved argc writable rows cols white
          (filtered image rows cols)
          (printed_lines w n rows cols image best average1 best' average2 total' total)
          e
unfolding main
main-save w fuel argc strtol source writable rows cols white n image lo hi read number =
    let fine : (ltb argc 2 || ltb 4 argc) ≡ false = ground arith in
    let (best, average1, best', average2, total', total, run) =
      run_trials_lem w argc n writable rows cols white image in
    let lines = printed_lines w n rows cols image best average1 best' average2 total' total in
    (
      save argc writable rows cols white (filtered image rows cols) lines,
      rw (fine, read, number) run,
      best,
      average1,
      best',
      average2,
      total',
      total,
      save-IsSaved argc writable rows cols white (filtered image rows cols) lines hi,
    )
