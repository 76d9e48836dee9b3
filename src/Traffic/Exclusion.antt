-- ===== src/Traffic/Exclusion.antt =====
-- At most one thread of lab8/traffic.c, or of lab8/traffic-sem.c, is between the lock and its release.
use cs_261_basics_of_compute.Prelude.{ℕ, zero, suc, List, [], ◌∷◌, ◌≡◌, ◌⊎◌, inl, inr, refl}
use cs_261_basics_of_compute.Traffic.{Histogram}
use cs_261_basics_of_compute.Traffic.Threads.{
  Lock, Excludes, Thread, outside, inside, loaded, stored, load, Traffic, enter, advance, turn,
}

abbrev pub IsOutside : Thread → Type 0
IsOutside (outside times) = Unit {0}
IsOutside _ = ⊥

-- Inside, with a value that the cell still has.
abbrev pub IsInside : Histogram → Thread → Type 0
IsInside h (outside times) = ⊥
IsInside h (inside t times) = Unit {0}
IsInside h (loaded t v times) = v ≡ load t h
IsInside h (stored times) = Unit {0}

abbrev pub AllOutside : List Thread → Type 0
AllOutside [] = Unit {0}
AllOutside (t ∷ ts) = IsOutside t × AllOutside ts

abbrev pub OneInside : Histogram → List Thread → Type 0
OneInside h [] = ⊥
OneInside h (t ∷ ts) = (IsInside h t × AllOutside ts) ⊎ (IsOutside t × OneInside h ts)

module _ {S : Type 0} (l : Lock S) (e : Excludes l) where
  abbrev pub Guarded : List Thread → S → Histogram → Type 0
  Guarded ts s h = ((s ≡ l.initial) × AllOutside ts) ⊎ ((s ≡ e.held) × OneInside h ts)

  -- A thread outside does not get a lock that is held.
  pub advance_waits :
      (t : Thread) (h : Histogram)
      → IsOutside t
      → advance l t e.held h ≡ record { thread = t; lock = e.held; histogram = h }
  unfolding advance enter
  advance_waits (outside []) h out = refl
  advance_waits (outside (t ∷ times)) h out = rw e.blocks refl
  advance_waits (inside t times) h out = absurd out
  advance_waits (loaded t v times) h out = absurd out
  advance_waits (stored times) h out = absurd out

  pub head_waits :
      (t : Thread) (ts : List Thread) (h : Histogram)
      → IsOutside t
      → turn l zero (t ∷ ts) e.held h ≡ record { threads = t ∷ ts; lock = e.held; histogram = h }
  unfolding turn
  head_waits t ts h out = rw (advance_waits t h out) refl

  pub turn_waits :
      (i : ℕ) (ts : List Thread) (h : Histogram)
      → AllOutside ts
      → turn l i ts e.held h ≡ record { threads = ts; lock = e.held; histogram = h }
  unfolding turn
  turn_waits i [] h out = refl
  turn_waits zero (t ∷ ts) h (out, outs) = head_waits t ts h out
  turn_waits (suc i) (t ∷ ts) h (out, outs) = rw (turn_waits i ts h outs) refl

  pub tail_waits :
      (i : ℕ) (t : Thread) (ts : List Thread) (h : Histogram)
      → AllOutside ts
      → turn l (suc i) (t ∷ ts) e.held h ≡ record { threads = t ∷ ts; lock = e.held; histogram = h }
  unfolding turn
  tail_waits i t ts h outs = rw (turn_waits i ts h outs) refl

  -- A thread outside does not change how the others stand.
  Guarded-beside :
      (t : Thread) (ts : List Thread) (s : S) (h : Histogram)
      → IsOutside t
      → Guarded ts s h
      → Guarded (t ∷ ts) s h
  Guarded-beside t ts s h out (inl (free, outs)) = inl (free, (out, outs))
  Guarded-beside t ts s h out (inr (held, one)) = inr (held, inr (out, one))

  abbrev pub After : Traffic S → Type 0
  After r = Guarded r.threads r.lock r.histogram

  stay : {r r' : Traffic S} → r ≡ r' → After r' → After r
  stay same a = rw same a

  turn_free :
      (i : ℕ) (ts : List Thread) (h : Histogram) → AllOutside ts → After (turn l i ts l.initial h)
  unfolding turn advance enter
  turn_free i [] h out = inl (refl, tt)
  turn_free zero (outside [] ∷ ts) h (out, outs) = inl (refl, (tt, outs))
  turn_free zero (outside (t ∷ times) ∷ ts) h (out, outs) = rw e.takes (inr (refl, inl (tt, outs)))
  turn_free zero (inside t times ∷ ts) h (out, outs) = absurd out
  turn_free zero (loaded t v times ∷ ts) h (out, outs) = absurd out
  turn_free zero (stored times ∷ ts) h (out, outs) = absurd out
  turn_free (suc i) (t ∷ ts) h (out, outs) =
      let r = turn l i ts l.initial h in
      Guarded-beside t r.threads r.lock r.histogram out (turn_free i ts h outs)

  turn_held :
      (i : ℕ) (ts : List Thread) (h : Histogram) → OneInside h ts → After (turn l i ts e.held h)
  unfolding turn advance enter
  turn_held i [] h one = absurd one
  turn_held zero (t ∷ ts) h (inr (out, one)) =
      stay (head_waits t ts h out) (inr (refl, inr (out, one)))
  turn_held zero (outside times ∷ ts) h (inl (is, outs)) = absurd is
  turn_held zero (inside t times ∷ ts) h (inl (is, outs)) = inr (refl, inl (refl, outs))
  turn_held zero (loaded t v times ∷ ts) h (inl (is, outs)) = inr (refl, inl (tt, outs))
  turn_held zero (stored times ∷ ts) h (inl (is, outs)) = inl (e.gives, (tt, outs))
  turn_held (suc i) (t ∷ ts) h (inl (is, outs)) =
      stay (tail_waits i t ts h outs) (inr (refl, inl (is, outs)))
  turn_held (suc i) (t ∷ ts) h (inr (out, one)) =
      let r = turn l i ts e.held h in
      Guarded-beside t r.threads r.lock r.histogram out (turn_held i ts h one)

  pub turn-Guarded :
      (i : ℕ) (ts : List Thread) (s : S) (h : Histogram) → Guarded ts s h → After (turn l i ts s h)
  turn-Guarded i ts s h (inl (free, outs)) = rw free (turn_free i ts h outs)
  turn-Guarded i ts s h (inr (held, one)) = rw held (turn_held i ts h one)
