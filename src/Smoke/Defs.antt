-- ===== src/Smoke/Defs.antt =====
-- The state of lab8/smoke.c, and what each thread does while it holds the mutex. The counts stay below
-- 2^31, since the agent makes 1000 rounds.
use cs_261_basics_of_compute.Prelude.{ℕ, ◌+◌, ◌/◌, ◌%◌, ltb, ◌==◌, if◌then◌else◌}

pub data Resource : Type 0 where
  match paper tobacco : Resource

-- An array that is indexed by a resource.
pub record Per {ℓ} (A : Type ℓ) : Type ℓ where
  pub match : A
  pub paper : A
  pub tobacco : A

module _ {ℓ} {A : Type ℓ} where
  abbrev pub at : Per A → Resource → A
  at a match = a.match
  at a paper = a.paper
  at a tobacco = a.tobacco

  abbrev pub put : Per A → Resource → A → Per A
  put a match x = record a { match = x }
  put a paper x = record a { paper = x }
  put a tobacco x = record a { tobacco = x }

abbrev pub value : Resource → ℕ
value match = 1
value paper = 2
value tobacco = 4

abbrev pub num_iterations : ℕ
num_iterations = 1000

-- Where a listener is: before its first lock, in its wait, or signalled and about to have the mutex.
pub data ListenerPc : Type 0 where
  listener_start listener_waits listener_woken : ListenerPc

-- A smoker increments `num_active_threads` before it locks the mutex: it loads the old value, and
-- stores the new one.
pub data SmokerPc : Type 0 where
  smoker_start : SmokerPc
  smoker_loaded : ℕ → SmokerPc
  smoker_counted smoker_waits smoker_woken : SmokerPc

-- The agent waits for the others in its first loop, and for a smoker in round `i` of the second.
pub data AgentPc : Type 0 where
  agent_start agent_gathers agent_gathered : AgentPc
  agent_waits agent_woken : ℕ → AgentPc
  agent_done : AgentPc

pub record System : Type 0 where
  pub sum : ℕ
  pub num_active_threads : ℕ
  pub signal_count : Per ℕ
  pub smoke_count : Per ℕ
  pub agent : AgentPc
  pub listener : Per ListenerPc
  pub smoker : Per SmokerPc

-- `pthread_cond_signal`, which wakes the thread that waits, and is lost if it does not.
unfoldable pub wake_listener : ListenerPc → ListenerPc
wake_listener listener_waits = listener_woken
wake_listener pc = pc

unfoldable pub wake_smoker : SmokerPc → SmokerPc
wake_smoker smoker_waits = smoker_woken
wake_smoker pc = pc

unfoldable pub wake_agent : AgentPc → AgentPc
wake_agent agent_gathers = agent_gathered
wake_agent (agent_waits i) = agent_woken i
wake_agent pc = pc

-- The conditions `match`, `paper` and `tobacco` of the agent.
unfoldable pub signal_resource : Resource → System → System
signal_resource r s = record s { listener = put s.listener r (wake_listener (at s.listener r)) }

-- The condition that the smoker with resource `r` waits on.
unfoldable pub signal_smoker : Resource → System → System
signal_smoker r s = record s { smoker = put s.smoker r (wake_smoker (at s.smoker r)) }

abbrev pub choices : ℕ → ℕ
choices r =
    if r == 0
    then value match + value paper
    else if r == 1
    then value match + value tobacco
    else value paper + value tobacco

abbrev pub matching_smoker : ℕ → Resource
matching_smoker r = if r == 0 then tobacco else if r == 1 then paper else match

-- One round of the second loop of `agent`, up to its wait; `r` is the random choice.
unfoldable pub agent_round : (r i : ℕ) → System → System
agent_round r i s =
    let m = matching_smoker r in
    let c = choices r in
    let s1 = record s { signal_count = put s.signal_count m (at s.signal_count m + 1) } in
    let s2 = if c % 2 == 1 then signal_resource match s1 else s1 in
    let s3 = if c / 2 % 2 == 1 then signal_resource paper s2 else s2 in
    let s4 = if c / 4 % 2 == 1 then signal_resource tobacco s3 else s3 in
    record s4 { agent = agent_waits i }

-- The agent at the test of its first loop.
unfoldable pub agent_gather : (r : ℕ) → System → System
agent_gather r s =
    if ltb s.num_active_threads 3 then record s { agent = agent_gathers } else agent_round r 0 s

-- The agent at the end of round `i`.
unfoldable pub agent_next : (r i : ℕ) → System → System
agent_next r i s =
    if ltb (i + 1) num_iterations then agent_round r (i + 1) s else record s { agent = agent_done }

-- `tobacco_listener`, `match_listener` and `paper_listener`, from one wait to the next.
unfoldable pub listener_round : Resource → System → System
listener_round r s =
    let sum = s.sum + value r in
    let s1 = record s { sum = sum; listener = put s.listener r listener_waits } in
    if sum == 6
    then record (signal_smoker match s1) { sum = 0 }
    else if sum == 5
    then record (signal_smoker paper s1) { sum = 0 }
    else if sum == 3
    then record (signal_smoker tobacco s1) { sum = 0 }
    else s1

-- `wait_tobacco`, `wait_match` and `wait_paper`, from one wait to the next.
unfoldable pub smoker_round : Resource → System → System
smoker_round r s = record s {
  agent = wake_agent s.agent;
  smoke_count = put s.smoke_count r (at s.smoke_count r + 1);
  smoker = put s.smoker r smoker_waits;
}
