-- ===== src/Smoke/Stuck.antt =====
-- Where lab8/smoke.c never ends: the agent locks the mutex before the three smokers have counted
-- themselves, and then waits for a signal that only a smoker gives.
use cs_261_basics_of_compute.Prelude.{ℕ, ◌≡◌, ◌∙◌}
use cs_261_basics_of_compute.Smoke.Defs.{agent_gathers, System}
use cs_261_basics_of_compute.Smoke.System.{
  init, Step, listener_locks, listener_wakes, smoker_loads, smoker_stores, smoker_locks,
  smoker_wakes, agent_locks, agent_rechecks, agent_continues, Trace, begin, step,
}
use cs_261_basics_of_compute.Smoke.Invariant.{Inv}
use cs_261_basics_of_compute.Smoke.Count.{listener_round_same, smoker_not_woken}
use cs_261_basics_of_compute.Smoke.Reach.{at_pc, Trace-Inv, init-Inv}

Step-gathers : {s t : System} → Step s t → Inv s → s.agent ≡ agent_gathers → t.agent ≡ agent_gathers
Step-gathers (listener_locks r e) inv g = g
Step-gathers {s} (listener_wakes r w) inv g = (listener_round_same r s).2 ∙ g
Step-gathers (smoker_loads r e) inv g = g
Step-gathers (smoker_stores r n e) inv g = g
Step-gathers (smoker_locks r e) inv g = g
Step-gathers {s} (smoker_wakes r w) inv g =
    absurd (smoker_not_woken r s (at_pc agent_gathers s g inv).smokers w)
Step-gathers (agent_locks r q e) inv g = cc
Step-gathers (agent_rechecks r q e) inv g = cc
Step-gathers (agent_continues r i q e) inv g = cc

Trace-gathers :
    {s t : System} {n : ℕ}
    → Inv s
    → s.agent ≡ agent_gathers
    → Trace s n 0 t
    → t.agent ≡ agent_gathers
Trace-gathers inv g begin = g
Trace-gathers inv g (step r st) = Step-gathers st (Trace-Inv r inv) (Trace-gathers inv g r)

-- Once the agent waits for the others, in a state that the threads can reach, it waits as long as no wait
-- ends without a signal: in no state that they can reach from there in this way has it gone on.
pub Trace_gathers :
    {s t : System} {m n : ℕ}
    → Trace init m 0 s
    → s.agent ≡ agent_gathers
    → Trace s n 0 t
    → t.agent ≡ agent_gathers
Trace_gathers r g later = Trace-gathers (Trace-Inv r init-Inv) g later
