-- ===== src/Traffic/Schedule.antt =====
-- The calls of `recordWaitingTime` by the threads of lab8/traffic.c, or of lab8/traffic-sem.c, in any
-- order of their steps.
use cs_261_basics_of_compute.Prelude.{ℕ, ◌+◌, ◌≤◌, ◌<◌, List, [], ◌∷◌, ◌≡◌, inl, refl, arith, ◌∙◌}
use cs_261_basics_of_compute.Prelude.Run.{ok}
use cs_261_basics_of_compute.Traffic.{
  Histogram, waiting_histogram_size, record_all, record_all-count_if,
}
use cs_261_basics_of_compute.Traffic.Threads.{Lock, Excludes, Traffic, turn, run, begin, calls}
use cs_261_basics_of_compute.Traffic.Exclusion.{AllOutside, After, turn-Guarded}
use cs_261_basics_of_compute.Traffic.Tally.{
  counter, all_due, to_come, turn_tally, all_due-begin, AllEnded, all_due-AllEnded, to_come_inside,
  to_come_outside,
}

module _ {S : Type 0} (l : Lock S) (e : Excludes l) where
  -- Threads with calls to make, at the start, and after a schedule.
  abbrev pub traffic : List ℕ → List (List ℕ) → Histogram → Traffic S
  traffic schedule rows h =
      run l schedule (record { threads = begin rows; lock = l.initial; histogram = h })

  begin-AllOutside : (rows : List (List ℕ)) → AllOutside (begin rows)
  unfolding begin
  begin-AllOutside [] = tt
  begin-AllOutside (row ∷ rows) = (tt, begin-AllOutside rows)

  run-Guarded : (schedule : List ℕ) (r : Traffic S) → After l e r → After l e (run l schedule r)
  unfolding run
  run-Guarded [] r g = g
  run-Guarded (i ∷ schedule) r g =
      run-Guarded schedule (turn l i r.threads r.lock r.histogram)
        (turn-Guarded l e i r.threads r.lock r.histogram g)

  run_tally :
      (c : ℕ) (schedule : List ℕ) (r : Traffic S)
      → c ≤ waiting_histogram_size
      → After l e r
      → counter c (run l schedule r).histogram + all_due c (run l schedule r).threads
        ≡ counter c r.histogram + all_due c r.threads
  unfolding run
  run_tally c [] r le g = refl
  run_tally c (i ∷ schedule) r le g =
      run_tally c schedule (turn l i r.threads r.lock r.histogram) le
        (turn-Guarded l e i r.threads r.lock r.histogram g)
      ∙ turn_tally l e c i r.threads r.lock r.histogram le g

  pub traffic-Guarded :
      (schedule : List ℕ) (rows : List (List ℕ)) (h : Histogram)
      → After l e (traffic schedule rows h)
  traffic-Guarded schedule rows h = run-Guarded schedule _ (inl (refl, begin-AllOutside rows))

  ended_counter :
      (c : ℕ) (schedule : List ℕ) (rows : List (List ℕ)) (h : Histogram)
      → c ≤ waiting_histogram_size
      → AllEnded (traffic schedule rows h).threads
      → counter c (traffic schedule rows h).histogram ≡ counter c h + to_come c (calls rows)
  ended_counter c schedule rows h le ended = omega (
    arith,
    run_tally c schedule (record { threads = begin rows; lock = l.initial; histogram = h }) le
        (inl (refl, begin-AllOutside rows)),
    all_due-AllEnded c (traffic schedule rows h).threads ended,
    all_due-begin c rows,
  )

  -- With a lock that one thread holds at a time, when all the threads have ended, in whatever order
  -- their steps came, the histogram is the one that the calls give one after another: no increment
  -- is lost.
  pub traffic-record_all :
      (schedule : List ℕ) (rows : List (List ℕ)) (h : Histogram)
      → AllEnded (traffic schedule rows h).threads
      → (h' : Histogram) × (record_all (calls rows) h ≡ ok h')
        × ((k : ℕ)
            → k < waiting_histogram_size
            → (traffic schedule rows h).histogram.waiting_histogram k ≡ h'.waiting_histogram k)
        × ((traffic schedule rows h).histogram.waiting_histogram_overflow
            ≡ h'.waiting_histogram_overflow)
  traffic-record_all schedule rows h ended =
      let (h', serial, cells, over) = record_all-count_if (calls rows) h in
      (
        h',
        serial,
        λ k l. ground (
          arith,
          cells k l,
          ended_counter k schedule rows h (omega arith) ended,
          to_come_inside k (calls rows) l,
        ),
        ground (
          arith,
          over,
          ended_counter waiting_histogram_size schedule rows h (omega arith) ended,
          to_come_outside (calls rows),
        ),
      )
