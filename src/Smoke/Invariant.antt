-- ===== src/Smoke/Invariant.antt =====
-- What holds of lab8/smoke.c between two steps: at most one round is open, and only its smoker smokes.
use cs_261_basics_of_compute.Prelude.{ℕ, zero, suc, ◌+◌, ◌<◌, ◌≡◌, ◌⊎◌, inl, arith}
use cs_261_basics_of_compute.Smoke.Defs.{
  Resource, match, paper, tobacco, Per, at, put, value, num_iterations, ListenerPc, listener_woken,
  SmokerPc, smoker_waits, smoker_woken, AgentPc, agent_start, agent_gathers, agent_gathered,
  agent_waits, agent_woken, agent_done, System, wake_listener, signal_resource, agent_round,
}

abbrev pub ListenerRests : ListenerPc → Type 0
ListenerRests listener_woken = ⊥
ListenerRests _ = Unit

abbrev pub SmokerRests : SmokerPc → Type 0
SmokerRests smoker_woken = ⊥
SmokerRests _ = Unit

abbrev pub ListenersRest : System → Type 0
ListenersRest s =
    ListenerRests s.listener.match
    × ListenerRests s.listener.paper
    × ListenerRests s.listener.tobacco

abbrev pub SmokersRest : System → Type 0
SmokersRest s =
    SmokerRests s.smoker.match × SmokerRests s.smoker.paper × SmokerRests s.smoker.tobacco

abbrev pub total : Per ℕ → ℕ
total c = c.match + c.paper + c.tobacco

-- No round is open, and `n` have been made.
pub record Closed (n : ℕ) (s : System) : Type 0 where
  pub sum : s.sum ≡ 0
  pub listeners : ListenersRest s
  pub smokers : SmokersRest s
  pub match : s.signal_count.match ≡ s.smoke_count.match
  pub paper : s.signal_count.paper ≡ s.smoke_count.paper
  pub tobacco : s.signal_count.tobacco ≡ s.smoke_count.tobacco
  pub rounds : total s.signal_count ≡ n

-- The listeners of two resources add them up, and the third rests.
pub record Adds (a b : Resource) (c : Resource) (s : System) : Type 0 where
  pub other : ListenerRests (at s.listener c)
  pub smokers : SmokersRest s
  pub sum :
      (s.sum ≡ 0)
      ⊎ ((s.sum ≡ value a) × ListenerRests (at s.listener a))
      ⊎ ((s.sum ≡ value b) × ListenerRests (at s.listener b))

-- Only the smoker with resource `m` may have been woken.
pub record Smokes (m : Resource) (s : System) : Type 0 where
  pub sum : s.sum ≡ 0
  pub listeners : ListenersRest s
  pub others : SmokersRest (record s { smoker = put s.smoker m smoker_waits })

abbrev pub one_if : Resource → Resource → ℕ
one_if match match = 1
one_if paper paper = 1
one_if tobacco tobacco = 1
one_if _ _ = 0

-- Round `i` is open, and it is for the smoker with resource `m`.
pub record Opened (i : ℕ) (m : Resource) (s : System) : Type 0 where
  pub small : i < num_iterations
  pub match : s.signal_count.match ≡ s.smoke_count.match + one_if m match
  pub paper : s.signal_count.paper ≡ s.smoke_count.paper + one_if m paper
  pub tobacco : s.signal_count.tobacco ≡ s.smoke_count.tobacco + one_if m tobacco
  pub rounds : total s.signal_count ≡ i + 1

abbrev pub Added : Resource → System → Type 0
Added match = Adds paper tobacco match
Added paper = Adds match tobacco paper
Added tobacco = Adds match paper tobacco

abbrev pub InvAt : AgentPc → System → Type 0
InvAt agent_start s = Closed 0 s
InvAt agent_gathers s = Closed 0 s
InvAt agent_gathered s = ⊥
InvAt (agent_waits i) s = (m : Resource) × Opened i m s × (Added m s ⊎ Smokes m s)
InvAt (agent_woken i) s = (i < num_iterations) × Closed (i + 1) s
InvAt agent_done s = Closed num_iterations s

abbrev pub Inv : System → Type 0
Inv s = InvAt s.agent s

-- The agent opens a round for the smoker that its choice matches.
pub agent_round-InvAt :
    (r i : ℕ) (s : System)
    → r < 3
    → i < num_iterations
    → Closed i s
    → InvAt (agent_waits i) (agent_round r i s)
unfolding agent_round signal_resource wake_listener
agent_round-InvAt zero i s lt small c = (tobacco, ground arith, inl (ground arith))
agent_round-InvAt (suc zero) i s lt small c = (paper, ground arith, inl (ground arith))
agent_round-InvAt (suc (suc zero)) i s lt small c = (match, ground arith, inl (ground arith))
agent_round-InvAt (suc (suc (suc r))) i s lt small c = absurd (omega arith)
