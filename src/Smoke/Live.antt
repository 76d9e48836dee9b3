-- ===== src/Smoke/Live.antt =====
-- Once every other thread of lab8/smoke.c waits, the rounds go on to the end.
use cs_261_basics_of_compute.Prelude.{
  ℕ, zero, suc, ◌+◌, ◌-◌, ◌*◌, ◌<◌, ◌≡◌, inl, inr, refl, ltb, arith, Bool-cases, sym,
}
use cs_261_basics_of_compute.Smoke.Defs.{
  Resource, match, paper, tobacco, Per, at, put, value, num_iterations, ListenerPc, listener_waits,
  listener_woken, SmokerPc, smoker_waits, smoker_woken, AgentPc, agent_start, agent_waits,
  agent_woken, agent_done, System, wake_agent, wake_listener, wake_smoker, signal_resource,
  signal_smoker, agent_round, agent_next, listener_round, smoker_round,
}
use cs_261_basics_of_compute.Smoke.System.{each}
use cs_261_basics_of_compute.Smoke.Invariant.{one_if}

-- A state in which all three smokers have been counted.
abbrev pub counted :
    (sum : ℕ) → AgentPc → Per ListenerPc → Per SmokerPc → (signals smokes : Per ℕ) → System
counted sum agent listener smoker signals smokes = record {
  sum = sum;
  num_active_threads = 3;
  signal_count = signals;
  smoke_count = smokes;
  agent = agent;
  listener = listener;
  smoker = smoker;
}

-- How many steps are left: four in each round, and one to open the first.
pub data Live : System → ℕ → Type 0 where
  starts :
      {g k : Per ℕ}
      → Live (counted 0 agent_start (each listener_waits) (each smoker_waits) g k) 4001
  both :
      {i : ℕ} (m : Resource) {g k : Per ℕ}
      → i < num_iterations
      → Live
          (counted 0
            (agent_waits i)
            (put (each listener_woken) m listener_waits)
            (each smoker_waits)
            g
            k)
          (4 * (999 - i) + 4)
  second :
      {i : ℕ} (a b : Resource) {g k : Per ℕ}
      → one_if a b ≡ 0
      → i < num_iterations
      → Live
          (counted
            (value a)
            (agent_waits i)
            (put (each listener_waits) b listener_woken)
            (each smoker_waits)
            g
            k)
          (4 * (999 - i) + 3)
  smokes :
      {i : ℕ} (m : Resource) {g k : Per ℕ}
      → i < num_iterations
      → Live
          (counted 0
            (agent_waits i)
            (each listener_waits)
            (put (each smoker_waits) m smoker_woken)
            g
            k)
          (4 * (999 - i) + 2)
  closes :
      {i : ℕ} {g k : Per ℕ}
      → i < num_iterations
      → Live
          (counted 0 (agent_woken i) (each listener_waits) (each smoker_waits) g k)
          (4 * (999 - i) + 1)
  ends : {g k : Per ℕ} → Live (counted 0 agent_done (each listener_waits) (each smoker_waits) g k) 0

-- One step fewer is left.
abbrev pub Fewer : System → ℕ → Type 0
Fewer t n = (n' : ℕ) × (n ≡ suc n') × Live t n'

pub at-each {ℓ} : {A : Type ℓ} (x : A) (r : Resource) → at (each x) r ≡ x
at-each x match = refl
at-each x paper = refl
at-each x tobacco = refl

pub both_round :
    (m r : Resource) (i : ℕ) (g k : Per ℕ)
    → at (put (each listener_woken) m listener_waits) r ≡ listener_woken
    → i < num_iterations
    → Live
        (listener_round r (
          counted 0
            (agent_waits i)
            (put (each listener_woken) m listener_waits)
            (each smoker_waits)
            g
            k))
        (4 * (999 - i) + 3)
unfolding listener_round
both_round match match i g k e p = absurd (ground arith)
both_round match paper i g k e p = second paper tobacco refl p
both_round match tobacco i g k e p = second tobacco paper refl p
both_round paper match i g k e p = second match tobacco refl p
both_round paper paper i g k e p = absurd (ground arith)
both_round paper tobacco i g k e p = second tobacco match refl p
both_round tobacco match i g k e p = second match paper refl p
both_round tobacco paper i g k e p = second paper match refl p
both_round tobacco tobacco i g k e p = absurd (ground arith)

pub second_round :
    (a b r : Resource) (i : ℕ) (g k : Per ℕ)
    → one_if a b ≡ 0
    → at (put (each listener_waits) b listener_woken) r ≡ listener_woken
    → i < num_iterations
    → Live
        (listener_round r (
          counted
            (value a)
            (agent_waits i)
            (put (each listener_waits) b listener_woken)
            (each smoker_waits)
            g
            k))
        (4 * (999 - i) + 2)
unfolding listener_round signal_smoker wake_smoker
second_round match paper paper i g k d e p = smokes tobacco p
second_round match tobacco tobacco i g k d e p = smokes paper p
second_round paper match match i g k d e p = smokes tobacco p
second_round paper tobacco tobacco i g k d e p = smokes match p
second_round tobacco match match i g k d e p = smokes paper p
second_round tobacco paper paper i g k d e p = smokes match p
second_round _ _ _ i g k d e p = absurd (ground arith)

pub smokes_round :
    (m r : Resource) (i : ℕ) (g k : Per ℕ)
    → at (put (each smoker_waits) m smoker_woken) r ≡ smoker_woken
    → i < num_iterations
    → Live
        (smoker_round r (
          counted 0
            (agent_waits i)
            (each listener_waits)
            (put (each smoker_waits) m smoker_woken)
            g
            k))
        (4 * (999 - i) + 1)
unfolding smoker_round wake_agent
smokes_round match match i g k e p = closes p
smokes_round paper paper i g k e p = closes p
smokes_round tobacco tobacco i g k e p = closes p
smokes_round _ _ i g k e p = absurd (ground arith)

pub opens_round :
    (pc : AgentPc) (r i : ℕ) (g k : Per ℕ)
    → r < 3
    → i < num_iterations
    → Live
        (agent_round r i (counted 0 pc (each listener_waits) (each smoker_waits) g k))
        (4 * (999 - i) + 4)
unfolding agent_round signal_resource wake_listener
opens_round pc zero i g k q p = both tobacco p
opens_round pc (suc zero) i g k q p = both paper p
opens_round pc (suc (suc zero)) i g k q p = both match p
opens_round pc (suc (suc (suc r))) i g k q p = absurd (omega arith)

pub next_round :
    (r i : ℕ) (g k : Per ℕ)
    → r < 3
    → i < num_iterations
    → Live
        (agent_next r i (counted 0 (agent_woken i) (each listener_waits) (each smoker_waits) g k))
        (4 * (999 - i))
unfolding agent_next
next_round r i g k q p = elim (Bool-cases (ltb (i + 1) num_iterations)) [
  | inl more ↦
      let lt : i + 1 < num_iterations = ground arith in
      let left : 4 * (999 - (i + 1)) + 4 ≡ 4 * (999 - i) = omega arith in
      rw (more, sym left) (opens_round (agent_woken i) r (i + 1) g k q lt)
  | inr last ↦ let gone : 4 * (999 - i) ≡ 0 = ground arith in rw (last, gone) ends
]
