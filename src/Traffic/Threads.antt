-- ===== src/Traffic/Threads.antt =====
-- `recordWaitingTime` of lab8/traffic.c and lab8/traffic-sem.c as the threads run it, step by step:
-- an increment reads the cell and then writes it, and other threads may move in between. The mutex of
-- the one and the semaphore of the other are a parameter. The times are not negative, and the
-- counters, which are `int`, stay below 2^31.
use cs_261_basics_of_compute.Prelude.{
  ℕ, zero, suc, ◌+◌, Option, none, some, List, [], ◌∷◌, ◌++◌, ltb, if◌then◌else◌, ◌≡◌,
}
use cs_261_basics_of_compute.Prelude.Store.{write}
use cs_261_basics_of_compute.Traffic.{Histogram, waiting_histogram_size}

-- A mutex, or a semaphore: its state at first, a call that locks it, `none` while the caller has to
-- wait, and one that unlocks it.
pub record Lock (S : Type 0) : Type 0 where
  pub initial : S
  pub acquire : S → Option S
  pub release : S → S

-- One caller gets it, and nobody else until it is given back.
pub record Excludes {S : Type 0} (l : Lock S) : Type 0 where
  pub held : S
  pub takes : l.acquire l.initial ≡ some held
  pub blocks : l.acquire held ≡ none
  pub gives : l.release held ≡ l.initial

-- A thread with the times of the calls that are to come: between two calls, inside with the lock,
-- with the value that it has read, and behind the increment.
pub data Thread : Type 0 where
  outside : (times : List ℕ) → Thread
  inside : (waiting_time : ℕ) (times : List ℕ) → Thread
  loaded : (waiting_time value : ℕ) (times : List ℕ) → Thread
  stored : (times : List ℕ) → Thread

unfoldable pub load : (waiting_time : ℕ) → Histogram → ℕ
load waiting_time h =
    if ltb waiting_time waiting_histogram_size
    then h.waiting_histogram waiting_time
    else h.waiting_histogram_overflow

unfoldable pub store : (waiting_time value : ℕ) → Histogram → Histogram
store waiting_time value h =
    if ltb waiting_time waiting_histogram_size
    then record h { waiting_histogram = write h.waiting_histogram waiting_time value }
    else record h { waiting_histogram_overflow = value }

pub record Turn (S : Type 0) : Type 0 where
  pub thread : Thread
  pub lock : S
  pub histogram : Histogram

pub record Traffic (S : Type 0) : Type 0 where
  pub threads : List Thread
  pub lock : S
  pub histogram : Histogram

module _ {S : Type 0} (l : Lock S) where
  unfoldable pub enter : Option S → (waiting_time : ℕ) (times : List ℕ) → S → Histogram → Turn S
  enter none t times s h = record { thread = outside (t ∷ times); lock = s; histogram = h }
  enter (some s') t times s h = record { thread = inside t times; lock = s'; histogram = h }

  -- The next step of a thread. One that has to wait, or has no call to come, stays as it is.
  unfoldable pub advance : Thread → S → Histogram → Turn S
  advance (outside []) s h = record { thread = outside []; lock = s; histogram = h }
  advance (outside (t ∷ times)) s h = enter (l.acquire s) t times s h
  advance (inside t times) s h = record {
    thread = loaded t (load t h) times;
    lock = s;
    histogram = h;
  }
  advance (loaded t v times) s h = record {
    thread = stored times;
    lock = s;
    histogram = store t (v + 1) h;
  }
  advance (stored times) s h = record { thread = outside times; lock = l.release s; histogram = h }

  -- The thread at a place takes its next step.
  unfoldable pub turn : ℕ → List Thread → S → Histogram → Traffic S
  turn i [] s h = record { threads = []; lock = s; histogram = h }
  turn zero (t ∷ ts) s h =
      let r = advance t s h in
      record { threads = r.thread ∷ ts; lock = r.lock; histogram = r.histogram }
  turn (suc i) (t ∷ ts) s h = let r = turn i ts s h in record r { threads = t ∷ r.threads }

  -- The threads move in the order of a schedule.
  unfoldable pub run : List ℕ → Traffic S → Traffic S
  run [] r = r
  run (i ∷ schedule) r = run schedule (turn i r.threads r.lock r.histogram)

-- Threads that have not begun, with the times of their calls.
unfoldable pub begin : List (List ℕ) → List Thread
begin [] = []
begin (times ∷ rest) = outside times ∷ begin rest

unfoldable pub calls : List (List ℕ) → List ℕ
calls [] = []
calls (times ∷ rest) = times ++ calls rest
