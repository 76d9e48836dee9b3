-- ===== src/Smoke/System.antt =====
-- The threads of lab8/smoke.c, interleaved in any order. A thread that holds the mutex runs alone until
-- it waits or ends, so what it does in between is one step; `num_active_threads++` is outside of the
-- mutex, and is two steps. A wait ends when it is signalled, or, as POSIX allows, without a signal.
use cs_261_basics_of_compute.Prelude.{ℕ, suc, ◌+◌, ◌<◌, ◌≡◌}
use cs_261_basics_of_compute.Smoke.Defs.{
  Resource, Per, at, put, listener_start, listener_waits, listener_woken, smoker_start,
  smoker_loaded, smoker_counted, smoker_waits, smoker_woken, agent_start, agent_gathers,
  agent_gathered, agent_waits, agent_woken, System, agent_gather, agent_next, listener_round,
  smoker_round,
}

abbrev pub each {ℓ} : {A : Type ℓ} → A → Per A
each x = record { match = x; paper = x; tobacco = x }

-- `main`, once it has created the threads.
abbrev pub init : System
init = record {
  sum = 0;
  num_active_threads = 0;
  signal_count = each 0;
  smoke_count = each 0;
  agent = agent_start;
  listener = each listener_start;
  smoker = each smoker_start;
}

pub data Step (s : System) : System → Type 0 where
  listener_locks :
      (r : Resource)
      → at s.listener r ≡ listener_start
      → Step s (record s { listener = put s.listener r listener_waits })
  listener_wakes : (r : Resource) → at s.listener r ≡ listener_woken → Step s (listener_round r s)
  smoker_loads :
      (r : Resource)
      → at s.smoker r ≡ smoker_start
      → Step s (record s { smoker = put s.smoker r (smoker_loaded s.num_active_threads) })
  smoker_stores :
      (r : Resource) (n : ℕ)
      → at s.smoker r ≡ smoker_loaded n
      → Step s (record s { num_active_threads = n + 1; smoker = put s.smoker r smoker_counted })
  smoker_locks :
      (r : Resource)
      → at s.smoker r ≡ smoker_counted
      → Step s (record s { smoker = put s.smoker r smoker_waits })
  smoker_wakes : (r : Resource) → at s.smoker r ≡ smoker_woken → Step s (smoker_round r s)
  agent_locks : (r : ℕ) → r < 3 → s.agent ≡ agent_start → Step s (agent_gather r s)
  agent_rechecks : (r : ℕ) → r < 3 → s.agent ≡ agent_gathered → Step s (agent_gather r s)
  agent_continues : (r i : ℕ) → r < 3 → s.agent ≡ agent_woken i → Step s (agent_next r i s)

-- A wakeup without a signal.
pub data Wake (s : System) : System → Type 0 where
  listener_stirs :
      (r : Resource)
      → at s.listener r ≡ listener_waits
      → Wake s (record s { listener = put s.listener r listener_woken })
  smoker_stirs :
      (r : Resource)
      → at s.smoker r ≡ smoker_waits
      → Wake s (record s { smoker = put s.smoker r smoker_woken })
  agent_stirs_early : s.agent ≡ agent_gathers → Wake s (record s { agent = agent_gathered })
  agent_stirs : (i : ℕ) → s.agent ≡ agent_waits i → Wake s (record s { agent = agent_woken i })

-- A run, with the number of its steps and the number of the wakeups without a signal.
pub data Trace (s : System) : (steps spurious : ℕ) → System → Type 0 where
  begin : Trace s 0 0 s
  step : {t u : System} {n k : ℕ} → Trace s n k t → Step t u → Trace s (suc n) k u
  wake : {t u : System} {n k : ℕ} → Trace s n k t → Wake t u → Trace s n (suc k) u
