-- ===== src/Traffic.antt =====
-- The street of lab8: `recordWaitingTime` of traffic.c, which traffic-sem.c and "part2 backup.c" have too,
-- and `enterStreet` of "part2 backup.c". Each stands for what one thread does while it holds the mutex,
-- and the counters, which are `int`, stay below 2^31. In `enterStreet` the pointer `s` is taken to be
-- the street, though nothing sets it, and `waited` is what the other threads do during the wait.
pub mod Threads
pub mod Semaphore
pub mod Exclusion
pub mod Tally
pub mod Schedule
pub mod Progress
pub mod Report
use cs_261_basics_of_compute.Prelude.{
  ℕ, ◌+◌, ◌≡◌, ◌≤◌, ◌<◌, refl, Bool, true, false, List, [], ◌∷◌, ltb, leb, ◌==◌, if◌then◌else◌,
  arith, Bool-cases, inl, inr, length,
}
use cs_261_basics_of_compute.Prelude.Int.{ℤ, pos, negsuc, sub_ℕ}
use cs_261_basics_of_compute.Prelude.Run.{
  Run, ok, undefined, ◌>>=◌, Settles, returns, faults, if-Settles,
}

abbrev pub waiting_histogram_size : ℕ
waiting_histogram_size = 2000

pub record Histogram : Type 0 where
  pub waiting_histogram : ℕ → ℕ
  pub waiting_histogram_overflow : ℕ

unfoldable pub bump : (ℕ → ℕ) → ℕ → ℕ → ℕ
bump f i k = if k == i then f k + 1 else f k

unfoldable pub record_waiting_time : (waiting_time : ℤ) → Histogram → Run Histogram
record_waiting_time (negsuc n) h = undefined
record_waiting_time (pos t) h =
    if ltb t waiting_histogram_size
    then ok (record h { waiting_histogram = bump h.waiting_histogram t })
    else ok (record h { waiting_histogram_overflow = h.waiting_histogram_overflow + 1 })

-- The calls that the threads make, in the order in which they get the mutex.
unfoldable pub record_all : List ℕ → Histogram → Run Histogram
record_all [] h = ok h
record_all (t ∷ times) h = do h' ← record_waiting_time (pos t) h; record_all times h'

pub data Direction : Type 0 where
  east : Direction
  west : Direction

unfoldable pub is_same : Direction → Direction → Bool
is_same east east = true
is_same west west = true
is_same _ _ = false

pub record Street : Type 0 where
  pub count : ℕ
  pub enter : ℕ
  pub histogram : Histogram
  pub occupancy_histogram : Direction → ℕ → ℕ

abbrev pub max_occupancy : ℕ
max_occupancy = 3

-- `s->enter++; s->count++; occupancyHistogram[g][s->count]++;`
unfoldable pub take_place : Direction → Street → Histogram → Run Street
take_place g s h =
    if ltb max_occupancy (s.count + 1)
    then undefined
    else ok (record {
      count = s.count + 1;
      enter = s.enter + 1;
      histogram = h;
      occupancy_histogram = λ d k.
          if is_same d g
          then bump (s.occupancy_histogram d) (s.count + 1) k
          else s.occupancy_histogram d k;
    })

unfoldable pub enter_street :
    (waited : Direction → Street → Street) → Direction → Street → Run Street
enter_street waited g s = do
  let s' = waited g s
  h ← record_waiting_time (sub_ℕ s'.enter s.enter) s'.histogram
  take_place g s' h

unfoldable pub leave_street : Street → Street
leave_street s = s

-- Entries one after another; a car may leave before the next one enters.
unfoldable pub enter_all :
    (waited : Direction → Street → Street) → List Direction → Street → Run Street
enter_all waited [] s = ok s
enter_all waited (g ∷ gs) s = do s' ← enter_street waited g s; enter_all waited gs (leave_street s')

-- How many elements pass a test.
unfoldable pub count_if : (ℕ → Bool) → List ℕ → ℕ
count_if f [] = 0
count_if f (t ∷ times) = if f t then count_if f times + 1 else count_if f times

-- Whatever the order of the calls, each cell of the histogram counts the calls with its time, and the
-- overflow counts those with a time of 2000 or more.
pub record_all-count_if :
    (times : List ℕ) (h : Histogram)
    → (h' : Histogram) × (record_all times h ≡ ok h')
      × ((k : ℕ)
          → k < waiting_histogram_size
          → h'.waiting_histogram k ≡ h.waiting_histogram k + count_if (λ t. t == k) times)
      × (h'.waiting_histogram_overflow
          ≡ h.waiting_histogram_overflow + count_if (λ t. leb waiting_histogram_size t) times)
unfolding record_all record_waiting_time count_if bump
record_all-count_if [] h = (h, refl, λ k l. omega arith, omega arith)
record_all-count_if (t ∷ times) h = elim (Bool-cases (ltb t waiting_histogram_size)) [
  | inl inside ↦
      let h1 : Histogram = record h { waiting_histogram = bump h.waiting_histogram t } in
      let (h', e, cells, over) = record_all-count_if times h1 in
      (h', rw inside e, λ k l. ground (arith, cells k l), ground (arith, over))
  | inr outside ↦
      let h1 : Histogram = record h {
        waiting_histogram_overflow = h.waiting_histogram_overflow + 1;
      } in
      let (h', e, cells, over) = record_all-count_if times h1 in
      (h', rw outside e, λ k l. ground (arith, cells k l), ground (arith, over))
]

-- An entry that is over: it was undefined, or one more car is on the street.
data Entered (before : ℕ) : Run Street → Type 0 where
  spilled : Entered before undefined
  entered : {s : Street} → before < s.count → s.count ≤ max_occupancy → Entered before (ok s)

take_place-Entered :
    (g : Direction) (s : Street) (before : ℕ) (h : Histogram)
    → before ≤ s.count
    → Entered before (take_place g s h)
unfolding take_place
take_place-Entered g s before h le = elim (Bool-cases (ltb max_occupancy (s.count + 1))) [
  | inl over ↦ rw over spilled
  | inr fits ↦ rw fits (entered (omega arith) (ground arith))
]

recorded-Entered :
    {r : Run Histogram} (g : Direction) (s : Street) (before : ℕ)
    → Settles r
    → before ≤ s.count
    → Entered before (r >>= take_place g s)
recorded-Entered g s before (returns {a = h}) le = take_place-Entered g s before h le
recorded-Entered g s before faults le = spilled

record_waiting_time-Settles : (t : ℤ) (h : Histogram) → Settles (record_waiting_time t h)
unfolding record_waiting_time
record_waiting_time-Settles (negsuc n) h = faults
record_waiting_time-Settles (pos t) h = if-Settles (ltb t waiting_histogram_size) returns returns

module _ (waited : Direction → Street → Street)
    (stay : (g : Direction) (s : Street) → s.count ≤ (waited g s).count) where
  Entered-all :
      {r : Run Street} (gs : List Direction) (before : ℕ)
      → Entered before r
      → ((s : Street)
          → before < s.count
          → s.count ≤ max_occupancy
          → enter_all waited gs s ≡ undefined)
      → (r >>= λ s. enter_all waited gs (leave_street s)) ≡ undefined
  unfolding leave_street
  Entered-all gs before spilled rest = refl
  Entered-all gs before (entered {s} lt le) rest = rest s lt le

  -- As long as no thread takes a car off the street, and leaving does not, one car more than the
  -- three that fit makes the program write outside the histograms, now or before.
  pub enter_all-undefined :
      (gs : List Direction) (s : Street)
      → s.count ≤ max_occupancy
      → max_occupancy < s.count + length gs
      → enter_all waited gs s ≡ undefined
  unfolding enter_all enter_street
  enter_all-undefined [] s le more = absurd (omega arith)
  enter_all-undefined (g ∷ gs) s le more =
      let s' = waited g s in
      Entered-all gs s.count
        (recorded-Entered g s' s.count
          (record_waiting_time-Settles (sub_ℕ s'.enter s.enter) s'.histogram) (stay g s))
        (λ t lt le'. enter_all-undefined gs t le' (omega arith))
