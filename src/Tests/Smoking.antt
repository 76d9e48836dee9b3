-- ===== src/Tests/Smoking.antt =====
-- Examples for the smokers: a schedule in which every thread comes to its wait before the agent begins,
-- and one in which the agent is first.
use cs_261_basics_of_compute.Prelude.{ℕ, zero, suc, ◌≤◌, ◌≡◌, ◌⊎◌, inl, inr, refl, arith, subst}
use cs_261_basics_of_compute.Smoke.Defs.{
  match, paper, tobacco, agent_gathers, agent_done, listener_waits, System, agent_gather,
  num_iterations,
}
use cs_261_basics_of_compute.Smoke.System.{
  init, listener_locks, smoker_loads, smoker_stores, smoker_locks, agent_locks, Trace, begin, step,
}
use cs_261_basics_of_compute.Smoke.Invariant.{total}
use cs_261_basics_of_compute.Smoke.Reach.{Trace_asserts}
use cs_261_basics_of_compute.Smoke.Live.{Live, starts}
use cs_261_basics_of_compute.Smoke.Progress.{Moves, Step-Live, Live-Moves, ready, Trace-ready}
use cs_261_basics_of_compute.Smoke.Stuck.{Trace_gathers}

reach_ready : Trace init 12 0 ready
reach_ready =
    let s1 =
      step (step (step begin (listener_locks match refl)) (listener_locks paper refl))
        (listener_locks tobacco refl) in
    let s2 =
      step (step (step s1 (smoker_loads match refl)) (smoker_stores match 0 refl))
        (smoker_locks match refl) in
    let s3 =
      step (step (step s2 (smoker_loads paper refl)) (smoker_stores paper 1 refl))
        (smoker_locks paper refl) in
    step (step (step s3 (smoker_loads tobacco refl)) (smoker_stores tobacco 2 refl))
      (smoker_locks tobacco refl)

-- Any run from there can be continued to the end of the agent.
completed :
    (n m : ℕ) (s : System)
    → Trace init m 0 s
    → Live s n
    → (t : System) × (k : ℕ) × Trace init k 0 t × (t.agent ≡ agent_done)
completed zero m s r l = elim (Live-Moves l) [
  | inl (none_left, done) ↦ (s, m, r, done)
  | inr (t, st) ↦ let (n', e, l') = Step-Live st l in absurd (omega (arith, e))
]
completed (suc n) m s r l = elim (Live-Moves l) [
  | inl (none_left, done) ↦ (s, m, r, done)
  | inr (t, st) ↦
      let (n', e, l') = Step-Live st l in
      let same : n' ≡ n = omega (arith, e) in
      completed n (suc m) t (step r st) (subst (Live t) same l')
]

finish : (t : System) × (k : ℕ) × Trace init k 0 t × (t.agent ≡ agent_done)
finish = completed 4001 12 ready reach_ready starts

Trace_asserts_example :
    (finish.0.signal_count ≡ finish.0.smoke_count) × (total finish.0.smoke_count ≡ num_iterations)
Trace_asserts_example = Trace_asserts (finish.2) (finish.3)

Trace-ready_example :
    (1 ≤ 4001)
    × (((◌≡◌ {A = ℕ} 1 4001) × ((agent_gather 0 ready).agent ≡ agent_done))
        ⊎ Moves (agent_gather 0 ready))
Trace-ready_example = Trace-ready (step begin (agent_locks 0 (omega arith) refl))

abbrev listeners : System → System
listeners s = record s { listener = record s.listener { match = listener_waits } }

Trace_gathers_example : (listeners (agent_gather 0 init)).agent ≡ agent_gathers
unfolding agent_gather
Trace_gathers_example =
    Trace_gathers (step begin (agent_locks 0 (omega arith) refl)) refl
      (step begin (listener_locks match refl))
