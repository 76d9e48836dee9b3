-- ===== src/Traffic/Tally.antt =====
-- What the histogram of lab8/traffic.c, or of lab8/traffic-sem.c, counts, with what the threads have
-- still to count.
use cs_261_basics_of_compute.Prelude.{
  ℕ, zero, suc, ◌+◌, ◌≤◌, ◌<◌, Option, none, some, List, [], ◌∷◌, ◌++◌, ◌≡◌, ◌⊎◌, inl, inr, refl,
  arith, ltb, leb, ◌==◌, if◌then◌else◌,
}
use cs_261_basics_of_compute.Prelude.Store.{write}
use cs_261_basics_of_compute.Traffic.{Histogram, waiting_histogram_size, count_if}
use cs_261_basics_of_compute.Traffic.Threads.{
  Lock, Excludes, Thread, outside, inside, loaded, stored, load, store, enter, advance, turn, begin,
  calls,
}
use cs_261_basics_of_compute.Traffic.Exclusion.{IsOutside, IsInside, Guarded, turn_waits}

-- The cells, with the overflow behind them.
abbrev pub cell_of : ℕ → ℕ
cell_of t = if ltb t waiting_histogram_size then t else waiting_histogram_size

abbrev pub counter : ℕ → Histogram → ℕ
counter c h =
    if ltb c waiting_histogram_size then h.waiting_histogram c else h.waiting_histogram_overflow

unfoldable pub to_come : ℕ → List ℕ → ℕ
to_come c times = count_if (λ t. cell_of t == c) times

unfoldable pub due : ℕ → Thread → ℕ
unfolding to_come
due c (outside times) = to_come c times
due c (inside t times) = to_come c (t ∷ times)
due c (loaded t v times) = to_come c (t ∷ times)
due c (stored times) = to_come c times

unfoldable pub all_due : ℕ → List Thread → ℕ
all_due c [] = 0
all_due c (t ∷ ts) = due c t + all_due c ts

module _ {S : Type 0} (l : Lock S) where
  store_counts :
      (c t : ℕ) (h : Histogram)
      → c ≤ waiting_histogram_size
      → counter c (store t (load t h + 1) h)
        ≡ (if cell_of t == c then counter c h + 1 else counter c h)
  unfolding store load write
  store_counts c t h le = ground arith

  enter_tally :
      (c t : ℕ) (times : List ℕ) (o : Option S) (s : S) (h : Histogram)
      → counter c (enter l o t times s h).histogram + due c (enter l o t times s h).thread
        ≡ counter c h + to_come c (t ∷ times)
  unfolding enter due
  enter_tally c t times none s h = refl
  enter_tally c t times (some s') s h = refl

  advance_tally :
      (c : ℕ) (t : Thread) (s : S) (h : Histogram)
      → c ≤ waiting_histogram_size
      → (IsOutside t ⊎ IsInside h t)
      → counter c (advance l t s h).histogram + due c (advance l t s h).thread
        ≡ counter c h + due c t
  unfolding advance due to_come count_if
  advance_tally c (outside []) s h le g = refl
  advance_tally c (outside (t ∷ times)) s h le g = enter_tally c t times (l.acquire s) s h
  advance_tally c (inside t times) s h le g = refl
  advance_tally c (loaded t v times) s h le (inl out) = absurd out
  advance_tally c (loaded t v times) s h le (inr same) =
      rw same (ground (arith, store_counts c t h le))
  advance_tally c (stored times) s h le g = refl

module _ {S : Type 0} (l : Lock S) (e : Excludes l) where
  head_known :
      (t : Thread) (ts : List Thread) (s : S) (h : Histogram)
      → Guarded l e (t ∷ ts) s h
      → IsOutside t ⊎ IsInside h t
  head_known t ts s h (inl (free, (out, outs))) = inl out
  head_known t ts s h (inr (held, inl (is, outs))) = inr is
  head_known t ts s h (inr (held, inr (out, one))) = inl out

  pub turn_tally :
      (c i : ℕ) (ts : List Thread) (s : S) (h : Histogram)
      → c ≤ waiting_histogram_size
      → Guarded l e ts s h
      → counter c (turn l i ts s h).histogram + all_due c (turn l i ts s h).threads
        ≡ counter c h + all_due c ts
  unfolding turn all_due
  turn_tally c i [] s h le g = refl
  turn_tally c zero (t ∷ ts) s h le g =
      omega (arith, advance_tally l c t s h le (head_known t ts s h g))
  turn_tally c (suc i) (t ∷ ts) s h le (inl (free, (out, outs))) =
      omega (arith, turn_tally c i ts s h le (inl (free, outs)))
  turn_tally c (suc i) (t ∷ ts) s h le (inr (held, inr (out, one))) =
      omega (arith, turn_tally c i ts s h le (inr (held, one)))
  turn_tally c (suc i) (t ∷ ts) s h le (inr (held, inl (is, outs))) =
      rw (held, turn_waits l e i ts h outs) refl

-- At the start all calls are due, and at the end none.
to_come_append : (c : ℕ) (xs ys : List ℕ) → to_come c (xs ++ ys) ≡ to_come c xs + to_come c ys
unfolding to_come count_if
to_come_append c [] ys = omega arith
to_come_append c (x ∷ xs) ys = ground (arith, to_come_append c xs ys)

pub all_due-begin : (c : ℕ) (rows : List (List ℕ)) → all_due c (begin rows) ≡ to_come c (calls rows)
unfolding all_due begin calls due
all_due-begin c [] = unfold to_come count_if in refl
all_due-begin c (row ∷ rows) =
    omega (arith, all_due-begin c rows, to_come_append c row (calls rows))

abbrev pub AllEnded : List Thread → Type 0
AllEnded [] = Unit {0}
AllEnded (t ∷ ts) = (t ≡ outside []) × AllEnded ts

pub all_due-AllEnded : (c : ℕ) (ts : List Thread) → AllEnded ts → all_due c ts ≡ 0
unfolding all_due due to_come count_if
all_due-AllEnded c [] ended = refl
all_due-AllEnded c (t ∷ ts) (is, ended) = rw (is, all_due-AllEnded c ts ended) refl

pub to_come_inside :
    (c : ℕ) (times : List ℕ)
    → c < waiting_histogram_size
    → to_come c times ≡ count_if (λ t. t == c) times
unfolding to_come count_if
to_come_inside c [] lt = refl
to_come_inside c (t ∷ times) lt = ground (arith, to_come_inside c times lt)

pub to_come_outside :
    (times : List ℕ)
    → to_come waiting_histogram_size times ≡ count_if (λ t. leb waiting_histogram_size t) times
unfolding to_come count_if
to_come_outside [] = refl
to_come_outside (t ∷ times) = ground (arith, to_come_outside times)
