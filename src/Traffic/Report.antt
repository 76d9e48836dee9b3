-- ===== src/Traffic/Report.antt =====
-- The end of `main` of lab8/traffic.c and lab8/traffic-sem.c, which prints the histogram.
use cs_261_basics_of_compute.Prelude.{
  ℕ, zero, suc, ◌+◌, ◌<◌, List, [], ◌∷◌, ◌≡◌, refl, arith, leb, ltb, ◌==◌, if◌then◌else◌, length,
  sym, ◌∙◌,
}
use cs_261_basics_of_compute.Traffic.{
  Histogram, waiting_histogram_size, count_if, record_all-count_if,
}
use cs_261_basics_of_compute.Traffic.Threads.{Lock, Excludes, calls}
use cs_261_basics_of_compute.Traffic.Tally.{AllEnded}
use cs_261_basics_of_compute.Traffic.Schedule.{traffic, traffic-record_all}

-- A line: the number of cars that were waited for, and how many times. That of the overflow has the
-- size of the histogram.
pub record HistogramLine : Type 0 where
  pub cars : ℕ
  pub count : ℕ

-- `for (int i...)`, with `rounds` rounds to go, and what comes behind.
unfoldable pub print_cells : (rounds i : ℕ) → (ℕ → ℕ) → List HistogramLine → List HistogramLine
print_cells zero i cells rest = rest
print_cells (suc rounds) i cells rest =
    let more = print_cells rounds (i + 1) cells rest in
    if cells i == 0 then more else (record { cars = i; count = cells i } ∷ more)

unfoldable pub print_histogram : Histogram → List HistogramLine
print_histogram h = print_cells waiting_histogram_size 0 h.waiting_histogram (
    if h.waiting_histogram_overflow == 0
    then []
    else (record { cars = waiting_histogram_size; count = h.waiting_histogram_overflow } ∷ []))

unfoldable pub times_printed : List HistogramLine → ℕ
times_printed [] = 0
times_printed (line ∷ lines) = line.count + times_printed lines

sum_from : (rounds i : ℕ) → (ℕ → ℕ) → ℕ
sum_from zero i f = 0
sum_from (suc rounds) i f = f i + sum_from rounds (i + 1) f

print_cells-sum_from :
    (rounds i : ℕ) (cells : ℕ → ℕ) (rest : List HistogramLine)
    → times_printed (print_cells rounds i cells rest) ≡ sum_from rounds i cells + times_printed rest
unfolding print_cells times_printed sum_from
print_cells-sum_from zero i cells rest = omega arith
print_cells-sum_from (suc rounds) i cells rest =
    ground (arith, print_cells-sum_from rounds (i + 1) cells rest)

sum_from_cong :
    (rounds i : ℕ) (f g : ℕ → ℕ)
    → ((k : ℕ) → k < i + rounds → f k ≡ g k)
    → sum_from rounds i f ≡ sum_from rounds i g
unfolding sum_from
sum_from_cong zero i f g same = refl
sum_from_cong (suc rounds) i f g same =
    omega
      (arith, same i (omega arith), sum_from_cong rounds (i + 1) f g (λ k l. same k (omega arith)))

-- One more in one cell.
sum_from_one :
    (rounds i t : ℕ) (f : ℕ → ℕ)
    → sum_from rounds i (λ k. if t == k then f k + 1 else f k) ≡ (
        if leb i t
        then (if ltb t (i + rounds) then sum_from rounds i f + 1 else sum_from rounds i f)
        else sum_from rounds i f)
unfolding sum_from
sum_from_one zero i t f = ground arith
sum_from_one (suc rounds) i t f = ground (arith, sum_from_one rounds (i + 1) t f)

sum_from_none : (rounds i : ℕ) → sum_from rounds i (λ k. 0) ≡ 0
unfolding sum_from
sum_from_none zero i = refl
sum_from_none (suc rounds) i = omega (arith, sum_from_none rounds (i + 1))

count_if_total :
    (size : ℕ) (times : List ℕ)
    → sum_from size 0 (λ k. count_if (λ t. t == k) times) + count_if (λ t. leb size t) times
      ≡ length times
unfolding count_if
count_if_total size [] = omega (arith, sum_from_none size 0)
count_if_total size (t ∷ times) =
    ground (
      arith,
      sum_from_one size 0 t (λ k. count_if (λ t'. t' == k) times),
      count_if_total size times,
    )

abbrev pub no_times : Histogram
no_times = record { waiting_histogram = λ k. 0; waiting_histogram_overflow = 0 }

print_histogram-total :
    (h : Histogram) (times : List ℕ)
    → ((k : ℕ) → k < waiting_histogram_size → h.waiting_histogram k ≡ count_if (λ t. t == k) times)
    → h.waiting_histogram_overflow ≡ count_if (λ t. leb waiting_histogram_size t) times
    → times_printed (print_histogram h) ≡ length times
unfolding print_histogram times_printed
print_histogram-total h times cells over =
    let last : List HistogramLine =
      if h.waiting_histogram_overflow == 0
      then []
      else (record { cars = waiting_histogram_size; count = h.waiting_histogram_overflow } ∷ []) in
    let at_end : times_printed last ≡ h.waiting_histogram_overflow = ground arith in
    omega (
      arith,
      at_end,
      over,
      print_cells-sum_from waiting_histogram_size 0 h.waiting_histogram last,
      sum_from_cong waiting_histogram_size 0 h.waiting_histogram (λ k. count_if (λ t. t == k) times)
          (λ k l. cells k (omega (arith, l))),
      count_if_total waiting_histogram_size times,
    )

module _ {S : Type 0} (l : Lock S) (e : Excludes l) where
  -- With a lock that one thread holds at a time, and a histogram that is zero at first, when all the
  -- threads have ended, in whatever order their steps came, the counts that the program prints add
  -- up to the number of their calls.
  pub print_histogram-traffic :
      (schedule : List ℕ) (rows : List (List ℕ))
      → AllEnded (traffic l e schedule rows no_times).threads
      → times_printed (print_histogram (traffic l e schedule rows no_times).histogram)
        ≡ length (calls rows)
  print_histogram-traffic schedule rows ended =
      let r = traffic l e schedule rows no_times in
      let (h', serial, cells, over) = traffic-record_all l e schedule rows no_times ended in
      let (h'', serial', cells', over') = record_all-count_if (calls rows) no_times in
      let same : h' ≡ h'' = cc in
      print_histogram-total r.histogram (calls rows)
        (λ k lt. omega (arith, cells k lt ∙ (rw (sym same) at (cells' k lt))))
        (omega (arith, over ∙ (rw (sym same) at over')))
