-- ===== src/Traffic/Semaphore.antt =====
-- The semaphore that lab8/traffic-sem.c uses as a mutex.
use cs_261_basics_of_compute.Prelude.{ℕ, suc, Option, none, some, ◌≡◌}
use cs_261_basics_of_compute.Traffic.Threads.{Lock, Excludes}

-- The calls of POSIX on a semaphore: `sem_wait` gives `none` while the caller has to wait.
pub record Semaphore (S : Type 0) : Type 0 where
  pub sem_init : (value : ℕ) → S
  pub sem_wait : S → Option S
  pub sem_post : S → S

-- A semaphore has a value, which a wait lowers unless it is zero, and a post raises.
pub record Counts {S : Type 0} (sem : Semaphore S) : Type 0 where
  pub waits : (n : ℕ) → sem.sem_wait (sem.sem_init (suc n)) ≡ some (sem.sem_init n)
  pub blocks : sem.sem_wait (sem.sem_init 0) ≡ none
  pub posts : (n : ℕ) → sem.sem_post (sem.sem_init n) ≡ sem.sem_init (suc n)

-- `sem_init(&waitingHistogramMutex, 0, 1)`, with a wait before each increment and a post behind it.
unfoldable pub semaphore_lock : {S : Type 0} → Semaphore S → Lock S
semaphore_lock sem = record {
  initial = sem.sem_init 1;
  acquire = sem.sem_wait;
  release = sem.sem_post;
}

-- One thread holds it at a time.
pub semaphore_lock-Excludes :
    {S : Type 0} (sem : Semaphore S) → Counts sem → Excludes (semaphore_lock sem)
unfolding semaphore_lock
semaphore_lock-Excludes sem c = record {
  held = sem.sem_init 0;
  takes = c.waits 0;
  blocks = c.blocks;
  gives = c.posts 0;
}
