-- ===== src/Smoke/Calm.antt =====
-- Steps of lab8/smoke.c that wake nobody.
use cs_261_basics_of_compute.Prelude.{ℕ, ◌+◌, ◌≡◌, ◌⊎◌, inl, inr, ◌∙◌}
use cs_261_basics_of_compute.Smoke.Defs.{
  Resource, match, paper, tobacco, at, put, num_iterations, smoker_waits, AgentPc, agent_start,
  agent_gathers, agent_gathered, agent_waits, agent_woken, agent_done, System,
}
use cs_261_basics_of_compute.Smoke.Invariant.{
  ListenerRests, SmokerRests, SmokersRest, Closed, Adds, Added, Smokes, Opened, InvAt,
}

-- A step that wakes nobody and leaves `sum` and the counts alone keeps the invariant.
module _ (s t : System) (sum : t.sum ≡ s.sum) (signals : t.signal_count ≡ s.signal_count)
    (smokes : t.smoke_count ≡ s.smoke_count)
    (listeners : (r : Resource) → ListenerRests (at s.listener r) → ListenerRests (at t.listener r))
    (smokers : (r : Resource) → SmokerRests (at s.smoker r) → SmokerRests (at t.smoker r)) where
  pub Closed-calm : (n : ℕ) → Closed n s → Closed n t
  Closed-calm n c = record {
    sum = sum ∙ c.sum;
    listeners = (
      listeners match c.listeners.0,
      listeners paper c.listeners.1,
      listeners tobacco c.listeners.2,
    );
    smokers = (smokers match c.smokers.0, smokers paper c.smokers.1, smokers tobacco c.smokers.2);
    match = rw (signals, smokes) c.match;
    paper = rw (signals, smokes) c.paper;
    tobacco = rw (signals, smokes) c.tobacco;
    rounds = rw signals c.rounds;
  }

  Opened-calm : (i : ℕ) (m : Resource) → Opened i m s → Opened i m t
  Opened-calm i m o = record {
    small = o.small;
    match = rw (signals, smokes) o.match;
    paper = rw (signals, smokes) o.paper;
    tobacco = rw (signals, smokes) o.tobacco;
    rounds = rw signals o.rounds;
  }

  Adds-calm : (a b c : Resource) → Adds a b c s → Adds a b c t
  Adds-calm a b c h = record {
    other = listeners c h.other;
    smokers = (smokers match h.smokers.0, smokers paper h.smokers.1, smokers tobacco h.smokers.2);
    sum = elim h.sum [
      | inl e ↦ inl (sum ∙ e)
      | inr (inl (e, k)) ↦ inr (inl (sum ∙ e, listeners a k))
      | inr (inr (e, k)) ↦ inr (inr (sum ∙ e, listeners b k))
    ];
  }

  Smokes-calm : (m : Resource) → Smokes m s → Smokes m t
  Smokes-calm m k = record {
    sum = sum ∙ k.sum;
    listeners = (
      listeners match k.listeners.0,
      listeners paper k.listeners.1,
      listeners tobacco k.listeners.2,
    );
    others = others m k.others;
  }
    where
      others :
          (m : Resource)
          → SmokersRest (record s { smoker = put s.smoker m smoker_waits })
          → SmokersRest (record t { smoker = put t.smoker m smoker_waits })
      others match (h, k, l) = (tt, smokers paper k, smokers tobacco l)
      others paper (h, k, l) = (smokers match h, tt, smokers tobacco l)
      others tobacco (h, k, l) = (smokers match h, smokers paper k, tt)

  Added-calm : (m : Resource) → Added m s ⊎ Smokes m s → Added m t ⊎ Smokes m t
  Added-calm match (inl h) = inl (Adds-calm paper tobacco match h)
  Added-calm paper (inl h) = inl (Adds-calm match tobacco paper h)
  Added-calm tobacco (inl h) = inl (Adds-calm match paper tobacco h)
  Added-calm m (inr k) = inr (Smokes-calm m k)

  pub InvAt-calm : (pc : AgentPc) → InvAt pc s → InvAt pc t
  InvAt-calm agent_start c = Closed-calm 0 c
  InvAt-calm agent_gathers c = Closed-calm 0 c
  InvAt-calm agent_gathered c = c
  InvAt-calm (agent_waits i) (m, o, k) = (m, Opened-calm i m o, Added-calm m k)
  InvAt-calm (agent_woken i) (small, c) = (small, Closed-calm (i + 1) c)
  InvAt-calm agent_done c = Closed-calm num_iterations c
