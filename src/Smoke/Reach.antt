-- ===== src/Smoke/Reach.antt =====
-- The invariant of lab8/smoke.c in every state that the threads can reach.
use cs_261_basics_of_compute.Prelude.{
  ℕ, ◌+◌, ◌<◌, ◌≡◌, inl, inr, refl, ltb, arith, Bool-cases, sym, subst,
}
use cs_261_basics_of_compute.Smoke.Defs.{
  Resource, match, paper, tobacco, Per, at, put, num_iterations, ListenerPc, listener_waits,
  SmokerPc, smoker_woken, AgentPc, agent_start, agent_gathers, agent_gathered, agent_waits,
  agent_woken, agent_done, System, wake_agent, agent_round, agent_gather, agent_next,
  listener_round, smoker_round,
}
use cs_261_basics_of_compute.Smoke.System.{
  init, Step, listener_locks, listener_wakes, smoker_loads, smoker_stores, smoker_locks,
  smoker_wakes, agent_locks, agent_rechecks, agent_continues, Trace, begin, step,
}
use cs_261_basics_of_compute.Smoke.Invariant.{
  ListenerRests, SmokerRests, total, Closed, Smokes, Opened, InvAt, Inv, agent_round-InvAt,
}
use cs_261_basics_of_compute.Smoke.Count.{
  Added-smokers, smoker_not_woken, listener_round_same, listener_round-InvAt, smoker_round-InvAt,
}
use cs_261_basics_of_compute.Smoke.Calm.{InvAt-calm, Closed-calm}

put-ListenerRests :
    (r r' : Resource) (l : Per ListenerPc) (x : ListenerPc)
    → ListenerRests x
    → ListenerRests (at l r')
    → ListenerRests (at (put l r x) r')
put-ListenerRests match match l x h k = h
put-ListenerRests paper paper l x h k = h
put-ListenerRests tobacco tobacco l x h k = h
put-ListenerRests match paper l x h k = k
put-ListenerRests match tobacco l x h k = k
put-ListenerRests paper match l x h k = k
put-ListenerRests paper tobacco l x h k = k
put-ListenerRests tobacco match l x h k = k
put-ListenerRests tobacco paper l x h k = k

put-SmokerRests :
    (r r' : Resource) (l : Per SmokerPc) (x : SmokerPc)
    → SmokerRests x
    → SmokerRests (at l r')
    → SmokerRests (at (put l r x) r')
put-SmokerRests match match l x h k = h
put-SmokerRests paper paper l x h k = h
put-SmokerRests tobacco tobacco l x h k = h
put-SmokerRests match paper l x h k = k
put-SmokerRests match tobacco l x h k = k
put-SmokerRests paper match l x h k = k
put-SmokerRests paper tobacco l x h k = k
put-SmokerRests tobacco match l x h k = k
put-SmokerRests tobacco paper l x h k = k

smoker_moves-Inv :
    (r : Resource) (x : SmokerPc) (n : ℕ) (s : System)
    → SmokerRests x
    → Inv s
    → Inv (record s { num_active_threads = n; smoker = put s.smoker r x })
smoker_moves-Inv r x n s h inv =
    InvAt-calm s _ refl refl refl (λ r' k. k) (λ r' k. put-SmokerRests r r' s.smoker x h k) s.agent
      inv

agent_moves-Closed :
    (n : ℕ) (pc : AgentPc) (s : System) → Closed n s → Closed n (record s { agent = pc })
agent_moves-Closed n pc s c = Closed-calm s _ refl refl refl (λ r k. k) (λ r k. k) n c

agent_round_agent : (r i : ℕ) (s : System) → (agent_round r i s).agent ≡ agent_waits i
unfolding agent_round
agent_round_agent r i s = refl

Inv-at : (pc : AgentPc) (s : System) → s.agent ≡ pc → InvAt pc s → Inv s
Inv-at pc s e h = subst (λ p. InvAt p s) (sym e) h

pub at_pc : (pc : AgentPc) (s : System) → s.agent ≡ pc → Inv s → InvAt pc s
at_pc pc s e h = subst (λ p. InvAt p s) e h

smoker_round_agent : (r : Resource) (s : System) → (smoker_round r s).agent ≡ wake_agent s.agent
unfolding smoker_round
smoker_round_agent r s = refl

agent_gather-Inv : (r : ℕ) (s : System) → r < 3 → Closed 0 s → Inv (agent_gather r s)
unfolding agent_gather
agent_gather-Inv r s lt c = elim (Bool-cases (ltb s.num_active_threads 3)) [
  | inl few ↦ rw few (agent_moves-Closed 0 agent_gathers s c)
  | inr all ↦ rw all (
      Inv-at _ (agent_round r 0 s) (agent_round_agent r 0 s)
        (agent_round-InvAt r 0 s lt (omega arith) c))
]

agent_next-Inv :
    (r i : ℕ) (s : System) → r < 3 → i < num_iterations → Closed (i + 1) s → Inv (agent_next r i s)
unfolding agent_next
agent_next-Inv r i s lt small c = elim (Bool-cases (ltb (i + 1) num_iterations)) [
  | inl more ↦ rw more (
      Inv-at _ (agent_round r (i + 1) s) (agent_round_agent r (i + 1) s)
        (agent_round-InvAt r (i + 1) s lt (ground arith) c))
  | inr last ↦
      let all : i + 1 ≡ num_iterations = ground arith in
      rw last (agent_moves-Closed num_iterations agent_done s (rw all at c))
]

-- Every step keeps the invariant.
pub Step-Inv : {s t : System} → Step s t → Inv s → Inv t
Step-Inv {s} (listener_locks r e) inv =
    InvAt-calm s _ refl refl refl (λ r' k. put-ListenerRests r r' s.listener listener_waits tt k)
      (λ r' k. k) s.agent inv
Step-Inv {s} (listener_wakes r w) inv =
    Inv-at s.agent (listener_round r s) ((listener_round_same r s).2)
      (listener_round-InvAt s.agent r s w inv)
Step-Inv {s} (smoker_loads r e) inv = smoker_moves-Inv r _ s.num_active_threads s tt inv
Step-Inv {s} (smoker_stores r n e) inv = smoker_moves-Inv r _ (n + 1) s tt inv
Step-Inv {s} (smoker_locks r e) inv = smoker_moves-Inv r _ s.num_active_threads s tt inv
Step-Inv {s} (smoker_wakes r w) inv =
    Inv-at (wake_agent s.agent) (smoker_round r s) (smoker_round_agent r s)
      (smoker_round-InvAt s.agent r s w inv)
Step-Inv {s} (agent_locks r lt e) inv = agent_gather-Inv r s lt (at_pc agent_start s e inv)
Step-Inv {s} (agent_rechecks r lt e) inv = absurd (at_pc agent_gathered s e inv)
Step-Inv {s} (agent_continues r i lt e) inv =
    let (small, c) = at_pc (agent_woken i) s e inv in agent_next-Inv r i s lt small c

pub Trace-Inv : {s t : System} {n : ℕ} → Trace s n 0 t → Inv s → Inv t
Trace-Inv begin inv = inv
Trace-Inv (step r st) inv = Step-Inv st (Trace-Inv r inv)

pub init-Inv : Inv init
init-Inv = record {
  sum = refl;
  listeners = (tt, tt, tt);
  smokers = (tt, tt, tt);
  match = refl;
  paper = refl;
  tobacco = refl;
  rounds = refl;
}

Per-path : (a b : Per ℕ) → a.match ≡ b.match → a.paper ≡ b.paper → a.tobacco ≡ b.tobacco → a ≡ b
Per-path a b p q r i = record { match = p i; paper = q i; tobacco = r i }

-- `main` asserts, once the agent has ended, that each smoker has smoked as often as its resource was
-- signalled, and that there were as many rounds as there should be. In every state that the threads can
-- reach in which the agent has ended, both hold, as long as no wait has ended without a signal.
pub Trace_asserts :
    {s : System} {n : ℕ}
    → Trace init n 0 s
    → s.agent ≡ agent_done
    → (s.signal_count ≡ s.smoke_count) × (total s.smoke_count ≡ num_iterations)
Trace_asserts {s} r e =
    let c = at_pc agent_done s e (Trace-Inv r init-Inv) in
    (Per-path _ _ c.match c.paper c.tobacco, omega (arith, c.match, c.paper, c.tobacco, c.rounds))

only_smoker : (m r : Resource) (s : System) → at s.smoker r ≡ smoker_woken → Smokes m s → m ≡ r
only_smoker match match s w k = refl
only_smoker paper paper s w k = refl
only_smoker tobacco tobacco s w k = refl
only_smoker match paper s w k = absurd (rw w at k.others.1)
only_smoker match tobacco s w k = absurd (rw w at k.others.2)
only_smoker paper match s w k = absurd (rw w at k.others.0)
only_smoker paper tobacco s w k = absurd (rw w at k.others.2)
only_smoker tobacco match s w k = absurd (rw w at k.others.0)
only_smoker tobacco paper s w k = absurd (rw w at k.others.1)

Opened-owes :
    (i : ℕ) (m : Resource) (s : System)
    → Opened i m s
    → at s.signal_count m ≡ at s.smoke_count m + 1
Opened-owes i match s o = o.match
Opened-owes i paper s o = o.paper
Opened-owes i tobacco s o = o.tobacco

InvAt-owes :
    (pc : AgentPc) (r : Resource) (s : System)
    → at s.smoker r ≡ smoker_woken
    → InvAt pc s
    → at s.signal_count r ≡ at s.smoke_count r + 1
InvAt-owes agent_start r s w c = absurd (smoker_not_woken r s c.smokers w)
InvAt-owes agent_gathers r s w c = absurd (smoker_not_woken r s c.smokers w)
InvAt-owes agent_gathered r s w c = absurd c
InvAt-owes (agent_woken i) r s w (small, c) = absurd (smoker_not_woken r s c.smokers w)
InvAt-owes agent_done r s w c = absurd (smoker_not_woken r s c.smokers w)
InvAt-owes (agent_waits i) r s w (m, o, inl k) =
    absurd (smoker_not_woken r s (Added-smokers m s k) w)
InvAt-owes (agent_waits i) r s w (m, o, inr k) =
    subst (λ x. at s.signal_count x ≡ at s.smoke_count x + 1) (only_smoker m r s w k)
      (Opened-owes i m s o)

-- In every state that the threads can reach in which no wait has ended without a signal, a smoker has
-- been woken only if the agent has signalled its resource once more than it has smoked.
pub Trace_owes :
    {s : System} {n : ℕ} (r : Resource)
    → Trace init n 0 s
    → at s.smoker r ≡ smoker_woken
    → at s.signal_count r ≡ at s.smoke_count r + 1
Trace_owes {s} r steps w = InvAt-owes s.agent r s w (Trace-Inv steps init-Inv)
