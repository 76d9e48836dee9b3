-- ===== src/Tests/Threads.antt =====
-- Two threads at the histogram of lab8/traffic.c: with a mutex, with a semaphore, and in an order of
-- steps that would lose an increment.
use cs_261_basics_of_compute.Prelude.{
  ℕ, zero, suc, ◌+◌, ◌≤◌, ◌<◌, Bool, true, false, Option, none, some, List, [], ◌∷◌, ◌≡◌, ◌⊎◌, refl,
}
use cs_261_basics_of_compute.Prelude.Run.{ok}
use cs_261_basics_of_compute.Traffic.{Histogram, waiting_histogram_size, record_all}
use cs_261_basics_of_compute.Traffic.Threads.{
  Lock, Excludes, enter, advance, turn, run, begin, calls,
}
use cs_261_basics_of_compute.Traffic.Semaphore.{
  Semaphore, Counts, semaphore_lock, semaphore_lock-Excludes,
}
use cs_261_basics_of_compute.Traffic.Tally.{AllEnded}
use cs_261_basics_of_compute.Traffic.Schedule.{traffic, traffic-record_all}
use cs_261_basics_of_compute.Traffic.Progress.{insiders, all_steps_left, traffic-CanMove}
use cs_261_basics_of_compute.Traffic.Report.{
  no_times, print_histogram, times_printed, print_histogram-traffic,
}

abbrev lock_mutex : Bool → Option Bool
lock_mutex false = some true
lock_mutex true = none

-- `PTHREAD_MUTEX_INITIALIZER`.
abbrev mutex : Lock Bool
mutex = record { initial = false; acquire = lock_mutex; release = λ b. false }

mutex-Excludes : Excludes mutex
mutex-Excludes = record { held = true; takes = refl; blocks = refl; gives = refl }

abbrev wait_semaphore : ℕ → Option ℕ
wait_semaphore zero = none
wait_semaphore (suc n) = some n

-- A semaphore is its value.
abbrev values : Semaphore ℕ
values = record { sem_init = λ n. n; sem_wait = wait_semaphore; sem_post = suc }

values-Counts : Counts values
values-Counts = record { waits = λ n. refl; blocks = refl; posts = λ n. refl }

-- Two threads, with three calls, and steps that alternate.
abbrev rows : List (List ℕ)
rows = (7 ∷ 2000 ∷ []) ∷ (7 ∷ []) ∷ []

abbrev turns : List ℕ
turns = 0 ∷ 1 ∷ 0 ∷ 1 ∷ 0 ∷ 1 ∷ 0 ∷ 1 ∷ 0 ∷ 1 ∷ 0 ∷ 1 ∷ 0 ∷ 1 ∷ 0 ∷ 0 ∷ 0 ∷ 0 ∷ []

all_end : AllEnded (traffic mutex mutex-Excludes turns rows no_times).threads
unfolding run turn advance enter begin
all_end = (refl, (refl, tt))

all_end_too :
    AllEnded
      (traffic
        (semaphore_lock values)
        (semaphore_lock-Excludes values values-Counts)
        turns
        rows
        no_times).threads
unfolding run turn advance enter begin semaphore_lock
all_end_too = (refl, (refl, tt))

traffic-record_all_example :
    let r = traffic mutex mutex-Excludes turns rows no_times in
    (h' : Histogram) × (record_all (calls rows) no_times ≡ ok h')
    × ((k : ℕ)
        → k < waiting_histogram_size
        → r.histogram.waiting_histogram k ≡ h'.waiting_histogram k)
    × (r.histogram.waiting_histogram_overflow ≡ h'.waiting_histogram_overflow)
traffic-record_all_example = traffic-record_all mutex mutex-Excludes turns rows no_times all_end

traffic-CanMove_example :
    let r = traffic mutex mutex-Excludes (0 ∷ 1 ∷ []) rows no_times in
    (insiders r.threads ≤ 1)
    × (AllEnded r.threads
        ⊎ ((i : ℕ) × (all_steps_left (turn mutex i r.threads r.lock r.histogram).threads + 1
              ≡ all_steps_left r.threads)))
    × ((i : ℕ)
        → all_steps_left (turn mutex i r.threads r.lock r.histogram).threads
          ≤ all_steps_left r.threads)
traffic-CanMove_example = traffic-CanMove mutex mutex-Excludes (0 ∷ 1 ∷ []) rows no_times

print_histogram-traffic_example :
    times_printed (
      print_histogram
        (traffic
          (semaphore_lock values)
          (semaphore_lock-Excludes values values-Counts)
          turns
          rows
          no_times).histogram)
    ≡ 3
unfolding calls
print_histogram-traffic_example =
    print_histogram-traffic (semaphore_lock values) (semaphore_lock-Excludes values values-Counts)
      turns rows all_end_too
