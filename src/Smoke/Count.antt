-- ===== src/Smoke/Count.antt =====
-- The invariant of lab8/smoke.c holds in every state that the threads can reach.
use cs_261_basics_of_compute.Prelude.{ℕ, ◌+◌, ◌≡◌, inl, inr, arith}
use cs_261_basics_of_compute.Smoke.Defs.{
  Resource, match, paper, tobacco, at, listener_woken, smoker_woken, AgentPc, agent_start,
  agent_gathers, agent_gathered, agent_waits, agent_woken, agent_done, System, wake_agent,
  signal_smoker, listener_round, smoker_round,
}
use cs_261_basics_of_compute.Smoke.Invariant.{
  ListenersRest, SmokersRest, Closed, Added, Smokes, Opened, InvAt,
}
use cs_261_basics_of_compute.Smoke.Listen.{Added-listener_round}

pub listener_round_same :
    (r : Resource) (s : System)
    → ((listener_round r s).signal_count ≡ s.signal_count)
      × ((listener_round r s).smoke_count ≡ s.smoke_count)
      × ((listener_round r s).agent ≡ s.agent)
unfolding listener_round signal_smoker
listener_round_same r s = ground arith

not_woken : (r : Resource) (s : System) → ListenersRest s → at s.listener r ≡ listener_woken → ⊥
not_woken match s h w = rw w at h.0
not_woken paper s h w = rw w at h.1
not_woken tobacco s h w = rw w at h.2

pub listener_round-InvAt :
    (pc : AgentPc) (r : Resource) (s : System)
    → at s.listener r ≡ listener_woken
    → InvAt pc s
    → InvAt pc (listener_round r s)
listener_round-InvAt agent_start r s w c = absurd (not_woken r s c.listeners w)
listener_round-InvAt agent_gathers r s w c = absurd (not_woken r s c.listeners w)
listener_round-InvAt agent_gathered r s w c = absurd c
listener_round-InvAt (agent_woken i) r s w (small, c) = absurd (not_woken r s c.listeners w)
listener_round-InvAt agent_done r s w c = absurd (not_woken r s c.listeners w)
listener_round-InvAt (agent_waits i) r s w (m, o, inr k) = absurd (not_woken r s k.listeners w)
listener_round-InvAt (agent_waits i) r s w (m, o, inl k) =
    let (e1, e2, e3) = listener_round_same r s in
    (
      m,
      record {
        small = o.small;
        match = rw (e1, e2) o.match;
        paper = rw (e1, e2) o.paper;
        tobacco = rw (e1, e2) o.tobacco;
        rounds = rw e1 o.rounds;
      },
      Added-listener_round m r s w k,
    )

pub smoker_not_woken :
    (r : Resource) (s : System) → SmokersRest s → at s.smoker r ≡ smoker_woken → ⊥
smoker_not_woken match s h w = rw w at h.0
smoker_not_woken paper s h w = rw w at h.1
smoker_not_woken tobacco s h w = rw w at h.2

-- The smoker of the open round closes it.
Smokes-smoker_round :
    (i : ℕ) (m r : Resource) (s : System)
    → at s.smoker r ≡ smoker_woken
    → Opened i m s
    → Smokes m s
    → Closed (i + 1) (smoker_round r s)
unfolding smoker_round
Smokes-smoker_round i match match s w o k = record {
  sum = k.sum;
  listeners = k.listeners;
  smokers = k.others;
  match = o.match;
  paper = omega (arith, o.paper);
  tobacco = omega (arith, o.tobacco);
  rounds = o.rounds;
}
Smokes-smoker_round i paper paper s w o k = record {
  sum = k.sum;
  listeners = k.listeners;
  smokers = k.others;
  match = omega (arith, o.match);
  paper = o.paper;
  tobacco = omega (arith, o.tobacco);
  rounds = o.rounds;
}
Smokes-smoker_round i tobacco tobacco s w o k = record {
  sum = k.sum;
  listeners = k.listeners;
  smokers = k.others;
  match = omega (arith, o.match);
  paper = omega (arith, o.paper);
  tobacco = o.tobacco;
  rounds = o.rounds;
}
Smokes-smoker_round i match paper s w o k = absurd (rw w at k.others.1)
Smokes-smoker_round i match tobacco s w o k = absurd (rw w at k.others.2)
Smokes-smoker_round i paper match s w o k = absurd (rw w at k.others.0)
Smokes-smoker_round i paper tobacco s w o k = absurd (rw w at k.others.2)
Smokes-smoker_round i tobacco match s w o k = absurd (rw w at k.others.0)
Smokes-smoker_round i tobacco paper s w o k = absurd (rw w at k.others.1)

pub Added-smokers : (m : Resource) (s : System) → Added m s → SmokersRest s
Added-smokers match s h = h.smokers
Added-smokers paper s h = h.smokers
Added-smokers tobacco s h = h.smokers

pub smoker_round-InvAt :
    (pc : AgentPc) (r : Resource) (s : System)
    → at s.smoker r ≡ smoker_woken
    → InvAt pc s
    → InvAt (wake_agent pc) (smoker_round r s)
unfolding wake_agent
smoker_round-InvAt agent_start r s w c = absurd (smoker_not_woken r s c.smokers w)
smoker_round-InvAt agent_gathers r s w c = absurd (smoker_not_woken r s c.smokers w)
smoker_round-InvAt agent_gathered r s w c = absurd c
smoker_round-InvAt (agent_woken i) r s w (small, c) = absurd (smoker_not_woken r s c.smokers w)
smoker_round-InvAt agent_done r s w c = absurd (smoker_not_woken r s c.smokers w)
smoker_round-InvAt (agent_waits i) r s w (m, o, inl k) =
    absurd (smoker_not_woken r s (Added-smokers m s k) w)
smoker_round-InvAt (agent_waits i) r s w (m, o, inr k) =
    (o.small, Smokes-smoker_round i m r s w o k)
