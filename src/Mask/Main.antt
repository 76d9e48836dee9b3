-- ===== src/Mask/Main.antt =====
-- `main` of lab6/timemask.c: both filters, run a number of times on an image that is read from a file,
-- and what the program prints. The lines of `countDifferentPixels` and the constant ones are left out.
-- Times are integers that do not overflow; `now k` is what call number `k` of `gettimeofday` gives and
-- `rand k` what call number `k` of `rand` returns. `timersub` and `strtol` are parameters.
use cs_261_basics_of_compute.Prelude.{
  ℕ, zero, suc, ◌+◌, ◌-◌, ◌*◌, ◌/◌, ◌%◌, ◌^◌, Bool, ◌||◌, Option, none, some, List, [], ◌∷◌, ◌++◌,
  ltb, if◌then◌else◌,
}
use cs_261_basics_of_compute.Prelude.Int.{ℤ, pos, negsuc, pos_part, sub_ℕ, ◌+ℤ◌, ◌*ℤ◌, ltb_ℤ}
use cs_261_basics_of_compute.Prelude.Run.{Run, ok, undefined, ◌>>=◌}
use cs_261_basics_of_compute.Mask.Defs.{Image, Result, base_mask, mask}
use cs_261_basics_of_compute.Mask.Compare.{copy, count_different_pixels}
use cs_261_basics_of_compute.Mask.Pgm.{File, refused, loaded, read_image, write_image}

pub record Timeval : Type 0 where
  pub tv_sec : ℤ
  pub tv_usec : ℤ

unfoldable pub usec_clock : (timersub : Timeval → Timeval → Timeval) (start_ts end_ts : Timeval) → ℤ
usec_clock timersub start_ts end_ts =
    let res = timersub end_ts start_ts in res.tv_usec +ℤ (pos 1000000 *ℤ res.tv_sec)

abbrev pub long_max : ℤ
long_max = pos (2 ^ 63 - 1)

-- What the program prints.
pub data Event : Type 0 where
  wrong_copy original_modified not_the_same saving cannot_open : Event
  processing : (rows cols : ℕ) (ntrials : ℤ) (check : ℕ) → Event
  base_run optimized_run : (trial check : ℕ) (thistime : ℤ) → Event
  base_took : (best average : ℤ) → Event
  optimized_took : (best besttimebase average total totaltimebase : ℤ) → Event

-- The surroundings of the program.
pub record World : Type 0 where
  pub rand : ℕ → ℕ
  pub now : ℕ → Timeval
  pub timersub : Timeval → Timeval → Timeval

-- `memset(trialAnswer, rand(), sizeof(trialAnswer))`: each byte of a `long` is the low byte of the
-- number.
unfoldable pub memset_long : ℕ → Image
memset_long r i j = r % 256 * 72340172838076673

-- The variables of the two loops; `calls` counts the calls of `rand`.
pub record Trials : Type 0 where
  pub trial_image : Image
  pub trial_answer : Image
  pub besttime : ℤ
  pub totaltime : ℤ
  pub calls : ℕ
  pub output : List Event

module _ (w : World) (base_image base_answer : Image) (rows cols : ℕ) where
  -- One trial, of `baseMask` or of `mask`, with the line that is printed for it.
  unfoldable pub trial_round :
      (filter : Image → Image → ℕ → ℕ → Result) (line : ℕ → ℕ → ℤ → Event) (trial : ℕ)
      → Trials
      → Trials
  trial_round filter line trial s =
      let res = filter s.trial_image (memset_long (w.rand s.calls)) rows cols in
      let thistime = usec_clock w.timersub (w.now (2 * s.calls)) (w.now (2 * s.calls + 1)) in
      let modified = ltb 0 (count_different_pixels base_image s.trial_image rows cols) in
      let differs = ltb 0 (count_different_pixels res.image base_answer rows cols) in
      record {
        trial_image = if modified then copy base_image s.trial_image rows cols else s.trial_image;
        trial_answer = res.image;
        besttime = if ltb_ℤ thistime s.besttime then thistime else s.besttime;
        totaltime = s.totaltime +ℤ thistime;
        calls = s.calls + 1;
        output =
            s.output
            ++ (line trial res.check thistime
                ∷ ((if modified then original_modified ∷ [] else [])
                    ++ (if differs then not_the_same ∷ [] else [])));
      }

  -- `for (trial = 0; trial < ntrials; ++trial)`, with `rounds` rounds to go.
  unfoldable pub trial_loop :
      (filter : Image → Image → ℕ → ℕ → Result) (line : ℕ → ℕ → ℤ → Event) (rounds trial : ℕ)
      → Trials
      → Trials
  trial_loop filter line zero trial s = s
  trial_loop filter line (suc rounds) trial s =
      trial_loop filter line rounds (trial + 1) (trial_round filter line trial s)

-- `totaltime / ntrials`, rounded towards zero.
unfoldable pub average : ℤ → ℤ → Run ℤ
average total (pos zero) = undefined
average (pos t) (pos (suc n)) = ok (pos (t / suc n))
average (pos t) (negsuc n) = ok (sub_ℕ 0 (t / suc n))
average (negsuc t) (pos (suc n)) = ok (sub_ℕ 0 (suc t / suc n))
average (negsuc t) (negsuc n) = ok (pos (suc t / suc n))

-- The exit code, what was printed and the file that was written.
pub record Ending : Type 0 where
  pub code : ℤ
  pub output : List Event
  pub saved : Option File

-- `fopen(argv[3], "wb")` succeeds if `writable`.
unfoldable pub save :
    (argc : ℕ) (writable : Bool) (rows cols white : ℕ) (answer : Image) → List Event → Ending
save argc writable rows cols white answer output =
    if ltb 3 argc
    then (if writable
        then record {
          code = pos 0;
          output = output ++ (saving ∷ []);
          saved = some (write_image rows cols white answer);
        }
        else record { code = pos 0; output = output ++ (saving ∷ cannot_open ∷ []); saved = none })
    else record { code = pos 0; output = output; saved = none }

unfoldable pub run_trials :
    World → (argc : ℕ) (ntrials : ℤ) (writable : Bool) (rows cols white : ℕ) → Image → Run Ending
run_trials w argc ntrials writable rows cols white base_image = do
  let trial_image = copy base_image (λ _ _. 0) rows cols
  let wrong = ltb 0 (count_different_pixels base_image trial_image rows cols)
  let base = base_mask base_image (λ _ _. 0) rows cols
  let s0 : Trials = record {
    trial_image = trial_image;
    trial_answer = λ _ _. 0;
    besttime = long_max;
    totaltime = pos 0;
    calls = 0;
    output =
        (if wrong then wrong_copy ∷ [] else []) ++ (processing rows cols ntrials base.check ∷ []);
  }
  let s1 = trial_loop w base_image base.image rows cols base_mask base_run (pos_part ntrials) 0 s0
  average1 ← average s1.totaltime ntrials
  let s2 : Trials = record s1 {
    besttime = long_max;
    totaltime = pos 0;
    output = s1.output ++ (base_took s1.besttime average1 ∷ []);
  }
  let s3 = trial_loop w base_image base.image rows cols mask optimized_run (pos_part ntrials) 0 s2
  average2 ← average s3.totaltime ntrials
  ok (
      save argc writable rows cols white s3.trial_answer (
        s3.output
        ++ (optimized_took s3.besttime s1.besttime average2 s3.totaltime s1.totaltime ∷ [])))

-- `strtol` is what it makes of the second argument, as an `int`.
unfoldable pub main :
    World → (fuel argc : ℕ) (strtol : ℤ) (source : Option File) (writable : Bool) → Run Ending
main w fuel argc strtol source writable =
    if ltb argc 2 || ltb 4 argc
    then ok (record { code = negsuc 0; output = []; saved = none })
    else (do
      reading ← read_image fuel source (λ _ _. 0)
      elim reading [
        | refused code ↦ ok (record { code = negsuc 1; output = []; saved = none })
        | loaded rows cols white image ↦
            run_trials w argc (if ltb 2 argc then strtol else pos 10) writable rows cols white image
      ])
