-- ===== src/Traffic/Progress.antt =====
-- No deadlock between the threads of lab8/traffic.c, or of lab8/traffic-sem.c, at the histogram.
use cs_261_basics_of_compute.Prelude.{
  ℕ, zero, suc, ◌+◌, ◌*◌, ◌≤◌, Option, none, some, List, [], ◌∷◌, ◌≡◌, ◌⊎◌, inl, inr, refl, arith,
  length,
}
use cs_261_basics_of_compute.Traffic.{Histogram}
use cs_261_basics_of_compute.Traffic.Threads.{
  Lock, Excludes, Thread, outside, inside, loaded, stored, enter, advance, turn,
}
use cs_261_basics_of_compute.Traffic.Exclusion.{IsOutside, AllOutside, OneInside}
use cs_261_basics_of_compute.Traffic.Tally.{AllEnded}
use cs_261_basics_of_compute.Traffic.Schedule.{traffic, traffic-Guarded}

-- How many steps a thread has still to take, and how many threads are inside.
unfoldable pub steps_left : Thread → ℕ
steps_left (outside times) = 4 * length times
steps_left (inside t times) = 4 * length times + 3
steps_left (loaded t v times) = 4 * length times + 2
steps_left (stored times) = 4 * length times + 1

unfoldable pub all_steps_left : List Thread → ℕ
all_steps_left [] = 0
all_steps_left (t ∷ ts) = steps_left t + all_steps_left ts

abbrev one_inside : Thread → ℕ
one_inside (outside times) = 0
one_inside _ = 1

unfoldable pub insiders : List Thread → ℕ
insiders [] = 0
insiders (t ∷ ts) = one_inside t + insiders ts

AllOutside-insiders : (ts : List Thread) → AllOutside ts → insiders ts ≡ 0
unfolding insiders
AllOutside-insiders [] out = refl
AllOutside-insiders (outside times ∷ ts) (out, outs) = omega (arith, AllOutside-insiders ts outs)
AllOutside-insiders (inside t times ∷ ts) (out, outs) = absurd out
AllOutside-insiders (loaded t v times ∷ ts) (out, outs) = absurd out
AllOutside-insiders (stored times ∷ ts) (out, outs) = absurd out

IsOutside-one_inside : (t : Thread) → IsOutside t → one_inside t ≡ 0
IsOutside-one_inside (outside times) out = refl
IsOutside-one_inside (inside t times) out = absurd out
IsOutside-one_inside (loaded t v times) out = absurd out
IsOutside-one_inside (stored times) out = absurd out

one_inside_bound : (t : Thread) → one_inside t ≤ 1
one_inside_bound (outside times) = omega arith
one_inside_bound (inside t times) = omega arith
one_inside_bound (loaded t v times) = omega arith
one_inside_bound (stored times) = omega arith

OneInside-insiders : (h : Histogram) (ts : List Thread) → OneInside h ts → insiders ts ≤ 1
unfolding insiders
OneInside-insiders h [] one = absurd one
OneInside-insiders h (t ∷ ts) (inl (is, outs)) =
    omega (arith, one_inside_bound t, AllOutside-insiders ts outs)
OneInside-insiders h (t ∷ ts) (inr (out, one)) =
    omega (arith, IsOutside-one_inside t out, OneInside-insiders h ts one)

module _ {S : Type 0} (l : Lock S) (e : Excludes l) where
  -- Some thread can take a step.
  abbrev CanMove : List Thread → S → Histogram → Type 0
  CanMove ts s h = (i : ℕ) × (all_steps_left (turn l i ts s h).threads + 1 ≡ all_steps_left ts)

  moves_beside :
      (t : Thread) (ts : List Thread) (s : S) (h : Histogram)
      → CanMove ts s h
      → CanMove (t ∷ ts) s h
  unfolding turn all_steps_left
  moves_beside t ts s h (i, less) = (suc i, omega arith)

  free_moves :
      (ts : List Thread) (h : Histogram) → AllOutside ts → AllEnded ts ⊎ CanMove ts l.initial h
  unfolding turn advance enter all_steps_left steps_left
  free_moves [] h out = inl tt
  free_moves (outside [] ∷ ts) h (out, outs) = elim (free_moves ts h outs) [
    | inl ended ↦ inl (refl, ended)
    | inr can ↦ inr (moves_beside (outside []) ts l.initial h can)
  ]
  free_moves (outside (t ∷ times) ∷ ts) h (out, outs) = inr (zero, rw e.takes (omega arith))
  free_moves (inside t times ∷ ts) h (out, outs) = absurd out
  free_moves (loaded t v times ∷ ts) h (out, outs) = absurd out
  free_moves (stored times ∷ ts) h (out, outs) = absurd out

  held_moves : (ts : List Thread) (h : Histogram) → OneInside h ts → CanMove ts e.held h
  unfolding turn advance all_steps_left steps_left
  held_moves [] h one = absurd one
  held_moves (t ∷ ts) h (inr (out, one)) = moves_beside t ts e.held h (held_moves ts h one)
  held_moves (outside times ∷ ts) h (inl (is, outs)) = absurd is
  held_moves (inside t times ∷ ts) h (inl (is, outs)) = (zero, omega arith)
  held_moves (loaded t v times ∷ ts) h (inl (is, outs)) = (zero, omega arith)
  held_moves (stored times ∷ ts) h (inl (is, outs)) = (zero, omega arith)

  -- No step makes more of them.
  entered_less :
      (o : Option S) (t : ℕ) (times : List ℕ) (s : S) (h : Histogram)
      → steps_left (enter l o t times s h).thread ≤ 4 * length times + 4
  unfolding enter steps_left
  entered_less none t times s h = omega arith
  entered_less (some s') t times s h = omega arith

  advance_less :
      (t : Thread) (s : S) (h : Histogram) → steps_left (advance l t s h).thread ≤ steps_left t
  unfolding advance steps_left
  advance_less (outside []) s h = omega arith
  advance_less (outside (t ∷ times)) s h = omega (arith, entered_less (l.acquire s) t times s h)
  advance_less (inside t times) s h = omega arith
  advance_less (loaded t v times) s h = omega arith
  advance_less (stored times) s h = omega arith

  turn_less :
      (i : ℕ) (ts : List Thread) (s : S) (h : Histogram)
      → all_steps_left (turn l i ts s h).threads ≤ all_steps_left ts
  unfolding turn all_steps_left
  turn_less i [] s h = omega arith
  turn_less zero (t ∷ ts) s h = omega (arith, advance_less t s h)
  turn_less (suc i) (t ∷ ts) s h = omega (arith, turn_less i ts s h)

  -- With a lock that one thread holds at a time, after any schedule at most one thread is inside.
  -- Unless all of them have ended, some thread can take one of the steps that are left; no step of a
  -- thread adds to these.
  pub traffic-CanMove :
      (schedule : List ℕ) (rows : List (List ℕ)) (h : Histogram)
      → let r = traffic l e schedule rows h in
        (insiders r.threads ≤ 1)
        × (AllEnded r.threads
            ⊎ ((i : ℕ) × (all_steps_left (turn l i r.threads r.lock r.histogram).threads + 1
                  ≡ all_steps_left r.threads)))
        × ((i : ℕ)
            → all_steps_left (turn l i r.threads r.lock r.histogram).threads
              ≤ all_steps_left r.threads)
  traffic-CanMove schedule rows h =
      let r = traffic l e schedule rows h in
      elim (traffic-Guarded l e schedule rows h) [
        | inl (free, outs) ↦ (
          omega (arith, AllOutside-insiders r.threads outs),
          rw free (free_moves r.threads r.histogram outs),
          λ i. turn_less i r.threads r.lock r.histogram,
        )
        | inr (held, one) ↦ (
          OneInside-insiders r.histogram r.threads one,
          inr (rw held (held_moves r.threads r.histogram one)),
          λ i. turn_less i r.threads r.lock r.histogram,
        )
      ]
