-- ===== src/Smoke/Progress.antt =====
-- Every run of lab8/smoke.c in which the others wait before the agent begins comes to the end.
use cs_261_basics_of_compute.Prelude.{
  ℕ, ◌+◌, ◌-◌, ◌*◌, ◌≤◌, ◌<◌, ◌≡◌, ◌⊎◌, inl, inr, refl, arith, subst,
}
use cs_261_basics_of_compute.Smoke.Defs.{
  Resource, match, paper, tobacco, Per, at, put, listener_waits, listener_woken, smoker_waits,
  smoker_woken, agent_start, agent_gathered, agent_woken, agent_done, System, agent_gather,
  agent_next, listener_round, smoker_round,
}
use cs_261_basics_of_compute.Smoke.System.{
  each, Step, listener_locks, listener_wakes, smoker_loads, smoker_stores, smoker_locks,
  smoker_wakes, agent_locks, agent_rechecks, agent_continues, Trace, begin, step,
}
use cs_261_basics_of_compute.Smoke.Live.{
  counted, Live, starts, both, second, smokes, closes, ends, Fewer, at-each, both_round,
  second_round, smokes_round, opens_round, next_round,
}

at-put-each {ℓ} :
    {A : Type ℓ} (x y : A) (m r : Resource)
    → (at (put (each x) m y) r ≡ x) ⊎ (at (put (each x) m y) r ≡ y)
at-put-each x y match match = inr refl
at-put-each x y paper paper = inr refl
at-put-each x y tobacco tobacco = inr refl
at-put-each x y match paper = inl refl
at-put-each x y match tobacco = inl refl
at-put-each x y paper match = inl refl
at-put-each x y paper tobacco = inl refl
at-put-each x y tobacco match = inl refl
at-put-each x y tobacco paper = inl refl

-- All threads but the agent have come to their waits.
Live-listener :
    {s : System} {n : ℕ}
    → Live s n
    → (r : Resource) → (at s.listener r ≡ listener_waits) ⊎ (at s.listener r ≡ listener_woken)
Live-listener starts r = inl (at-each listener_waits r)
Live-listener (both m p) r = ground (arith, at-put-each listener_woken listener_waits m r)
Live-listener (second a b d p) r = at-put-each listener_waits listener_woken b r
Live-listener (smokes m p) r = inl (at-each listener_waits r)
Live-listener (closes p) r = inl (at-each listener_waits r)
Live-listener ends r = inl (at-each listener_waits r)

Live-smoker :
    {s : System} {n : ℕ}
    → Live s n
    → (r : Resource) → (at s.smoker r ≡ smoker_waits) ⊎ (at s.smoker r ≡ smoker_woken)
Live-smoker starts r = inl (at-each smoker_waits r)
Live-smoker (both m p) r = inl (at-each smoker_waits r)
Live-smoker (second a b d p) r = inl (at-each smoker_waits r)
Live-smoker (smokes m p) r = at-put-each smoker_waits smoker_woken m r
Live-smoker (closes p) r = inl (at-each smoker_waits r)
Live-smoker ends r = inl (at-each smoker_waits r)

listener_not_woken : (r : Resource) → at (each listener_waits) r ≡ listener_woken → ⊥
listener_not_woken r e = ground (arith, at-each listener_waits r)

smoker_not_woken : (r : Resource) → at (each smoker_waits) r ≡ smoker_woken → ⊥
smoker_not_woken r e = ground (arith, at-each smoker_waits r)

listener_wakes-Live :
    {s : System} {n : ℕ} (r : Resource)
    → at s.listener r ≡ listener_woken
    → Live s n
    → Fewer (listener_round r s) n
listener_wakes-Live r e starts = absurd (listener_not_woken r e)
listener_wakes-Live r e (both {i = i} m {g} {k} p) = (_, omega arith, both_round m r i g k e p)
listener_wakes-Live r e (second {i = i} a b {g} {k} d p) =
    (_, omega arith, second_round a b r i g k d e p)
listener_wakes-Live r e (smokes m p) = absurd (listener_not_woken r e)
listener_wakes-Live r e (closes p) = absurd (listener_not_woken r e)
listener_wakes-Live r e ends = absurd (listener_not_woken r e)

smoker_wakes-Live :
    {s : System} {n : ℕ} (r : Resource)
    → at s.smoker r ≡ smoker_woken
    → Live s n
    → Fewer (smoker_round r s) n
smoker_wakes-Live r e (smokes {i = i} m {g} {k} p) = (_, omega arith, smokes_round m r i g k e p)
smoker_wakes-Live r e starts = absurd (smoker_not_woken r e)
smoker_wakes-Live r e (both m p) = absurd (smoker_not_woken r e)
smoker_wakes-Live r e (second a b d p) = absurd (smoker_not_woken r e)
smoker_wakes-Live r e (closes p) = absurd (smoker_not_woken r e)
smoker_wakes-Live r e ends = absurd (smoker_not_woken r e)

agent_locks-Live :
    {s : System} {n : ℕ} (r : ℕ)
    → r < 3
    → s.agent ≡ agent_start
    → Live s n
    → Fewer (agent_gather r s) n
unfolding agent_gather
agent_locks-Live r q e (starts {g} {k}) = (_, refl, opens_round agent_start r 0 g k q (omega arith))
agent_locks-Live r q e (both m p) = cc
agent_locks-Live r q e (second a b d p) = cc
agent_locks-Live r q e (smokes m p) = cc
agent_locks-Live r q e (closes p) = cc
agent_locks-Live r q e ends = cc

agent_not_gathered : {s : System} {n : ℕ} → s.agent ≡ agent_gathered → Live s n → ⊥
agent_not_gathered e starts = cc
agent_not_gathered e (both m p) = cc
agent_not_gathered e (second a b d p) = cc
agent_not_gathered e (smokes m p) = cc
agent_not_gathered e (closes p) = cc
agent_not_gathered e ends = cc

agent_continues-Live :
    {s : System} {n : ℕ} (r i : ℕ)
    → r < 3
    → s.agent ≡ agent_woken i
    → Live s n
    → Fewer (agent_next r i s) n
agent_continues-Live r i q e (closes {i = j} {g} {k} p) =
    let same : j ≡ i = cc in
    let t = counted 0 (agent_woken j) (each listener_waits) (each smoker_waits) g k in
    let after =
      subst (λ x. Live (agent_next r x t) (4 * (999 - j))) same (next_round r j g k q p) in
    (4 * (999 - j), omega arith, after)
agent_continues-Live r i q e starts = cc
agent_continues-Live r i q e (both m p) = cc
agent_continues-Live r i q e (second a b d p) = cc
agent_continues-Live r i q e (smokes m p) = cc
agent_continues-Live r i q e ends = cc

-- Every step of a live state leads to a live state with one step fewer left.
pub Step-Live : {s t : System} {n : ℕ} → Step s t → Live s n → Fewer t n
Step-Live (listener_locks r e) l = absurd (ground (arith, Live-listener l r))
Step-Live (listener_wakes r e) l = listener_wakes-Live r e l
Step-Live (smoker_loads r e) l = absurd (ground (arith, Live-smoker l r))
Step-Live (smoker_stores r n e) l = absurd (ground (arith, Live-smoker l r))
Step-Live (smoker_locks r e) l = absurd (ground (arith, Live-smoker l r))
Step-Live (smoker_wakes r e) l = smoker_wakes-Live r e l
Step-Live (agent_locks r q e) l = agent_locks-Live r q e l
Step-Live (agent_rechecks r q e) l = absurd (agent_not_gathered e l)
Step-Live (agent_continues r i q e) l = agent_continues-Live r i q e l

-- Some thread can take a step.
abbrev pub Moves : System → Type 0
Moves s = (t : System) × Step s t

at-put {ℓ} : {A : Type ℓ} (a : Per A) (r : Resource) (x : A) → at (put a r x) r ≡ x
at-put a match x = refl
at-put a paper x = refl
at-put a tobacco x = refl

pub Live-Moves : {s : System} {n : ℕ} → Live s n → ((n ≡ 0) × (s.agent ≡ agent_done)) ⊎ Moves s
Live-Moves starts = inr (_, agent_locks 0 (omega arith) refl)
Live-Moves (both match p) = inr (_, listener_wakes paper refl)
Live-Moves (both paper p) = inr (_, listener_wakes match refl)
Live-Moves (both tobacco p) = inr (_, listener_wakes match refl)
Live-Moves (second a b d p) =
    inr (_, listener_wakes b (at-put (each listener_waits) b listener_woken))
Live-Moves (smokes m p) = inr (_, smoker_wakes m (at-put (each smoker_waits) m smoker_woken))
Live-Moves (closes {i = i} p) = inr (_, agent_continues 0 i (omega arith) refl)
Live-Moves ends = inl (refl, refl)

Trace-Live :
    {s t : System} {n k : ℕ} → Trace s k 0 t → Live s n → (left : ℕ) × (n ≡ k + left) × Live t left
Trace-Live begin l = (_, omega arith, l)
Trace-Live (step r st) l =
    let (m, e, l') = Trace-Live r l in let (m', e', l'') = Step-Live st l' in (m', omega arith, l'')

-- The other six threads wait, and the agent has not begun.
abbrev pub ready : System
ready = counted 0 agent_start (each listener_waits) (each smoker_waits) (each 0) (each 0)

-- No run from there in which no wait ends without a signal is longer than 4001 steps, whatever the
-- scheduler and the random choices do, and one that cannot go on has ended the agent.
pub Trace-ready :
    {n : ℕ} {t : System}
    → Trace ready n 0 t
    → (n ≤ 4001) × (((n ≡ 4001) × (t.agent ≡ agent_done)) ⊎ Moves t)
Trace-ready r =
    let (left, e, l) = Trace-Live r starts in
    (
      omega arith,
      elim (Live-Moves l) [
        | inl (none_left, done) ↦ inl (omega arith, done)
        | inr moves ↦ inr moves
      ],
    )
