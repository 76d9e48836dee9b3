-- ===== src/Smoke/Listen.antt =====
-- What a listener of lab8/smoke.c does to an open round.
use cs_261_basics_of_compute.Prelude.{ℕ, ◌≡◌, ◌⊎◌, inl, inr, refl, arith}
use cs_261_basics_of_compute.Smoke.Defs.{
  Resource, match, paper, tobacco, Per, at, put, value, ListenerPc, listener_waits, listener_woken,
  SmokerPc, smoker_waits, System, signal_smoker, listener_round,
}
use cs_261_basics_of_compute.Smoke.Invariant.{
  ListenerRests, SmokersRest, Adds, Added, Smokes, one_if,
}

-- The resource that is neither of two different ones.
abbrev pub third : Resource → Resource → Resource
third match paper = tobacco
third match tobacco = paper
third paper match = tobacco
third paper tobacco = match
third tobacco match = paper
third tobacco paper = match
third r _ = r

abbrev listened : Resource → ℕ → System → System
listened r sum s = record s { sum = sum; listener = put s.listener r listener_waits }

listener_round_first :
    (r : Resource) (s : System) → s.sum ≡ 0 → listener_round r s ≡ listened r (value r) s
unfolding listener_round
listener_round_first match s e = rw e refl
listener_round_first paper s e = rw e refl
listener_round_first tobacco s e = rw e refl

listener_round_second :
    (r x : Resource) (s : System)
    → one_if r x ≡ 0
    → s.sum ≡ value x
    → listener_round r s ≡ record (signal_smoker (third r x) (listened r 0 s)) { sum = 0 }
unfolding listener_round signal_smoker
listener_round_second match match s d e = absurd (omega arith)
listener_round_second match paper s d e = rw e refl
listener_round_second match tobacco s d e = rw e refl
listener_round_second paper match s d e = rw e refl
listener_round_second paper paper s d e = absurd (omega arith)
listener_round_second paper tobacco s d e = rw e refl
listener_round_second tobacco match s d e = rw e refl
listener_round_second tobacco paper s d e = rw e refl
listener_round_second tobacco tobacco s d e = absurd (omega arith)

put_waits : (a : Resource) (l : Per ListenerPc) → ListenerRests (at (put l a listener_waits) a)
put_waits match l = tt
put_waits paper l = tt
put_waits tobacco l = tt

third_after :
    (a b : Resource) (l : Per ListenerPc)
    → one_if a b ≡ 0
    → ListenerRests (at l (third a b))
    → ListenerRests (at (put l a listener_waits) (third a b))
third_after match paper l d h = h
third_after match tobacco l d h = h
third_after paper match l d h = h
third_after paper tobacco l d h = h
third_after tobacco match l d h = h
third_after tobacco paper l d h = h
third_after match match l d h = absurd (omega arith)
third_after paper paper l d h = absurd (omega arith)
third_after tobacco tobacco l d h = absurd (omega arith)

all_after :
    (a b : Resource) (l : Per ListenerPc)
    → one_if a b ≡ 0
    → ListenerRests (at l b)
    → ListenerRests (at l (third a b))
    → let l' = put l a listener_waits in
      ListenerRests l'.match × ListenerRests l'.paper × ListenerRests l'.tobacco
all_after match paper l d h k = (tt, h, k)
all_after match tobacco l d h k = (tt, k, h)
all_after paper match l d h k = (h, tt, k)
all_after paper tobacco l d h k = (k, tt, h)
all_after tobacco match l d h k = (h, k, tt)
all_after tobacco paper l d h k = (k, h, tt)
all_after match match l d h k = absurd (omega arith)
all_after paper paper l d h k = absurd (omega arith)
all_after tobacco tobacco l d h k = absurd (omega arith)

smokers_after :
    (m : Resource) (s : System) (pc : SmokerPc)
    → SmokersRest s
    → SmokersRest (record s { smoker = put (put s.smoker m pc) m smoker_waits })
smokers_after match s pc (h, k, l) = (tt, k, l)
smokers_after paper s pc (h, k, l) = (h, tt, l)
smokers_after tobacco s pc (h, k, l) = (h, k, tt)

-- The first of the two listeners adds its resource, and the second calls the smoker.
Adds-listener_round :
    (a b : Resource) (s : System)
    → one_if a b ≡ 0
    → at s.listener a ≡ listener_woken
    → Adds a b (third a b) s
    → Adds a b (third a b) (listener_round a s) ⊎ Smokes (third a b) (listener_round a s)
unfolding signal_smoker
Adds-listener_round a b s d w h = elim h.sum [
  | inl e ↦ rw (listener_round_first a s e) (
      inl (record {
        other = third_after a b s.listener d h.other;
        smokers = h.smokers;
        sum = inr (inl (refl, put_waits a s.listener));
      }))
  | inr (inl (e, rests)) ↦ absurd (rw w at rests)
  | inr (inr (e, rests)) ↦ rw (listener_round_second a b s d e) (
      inr (record {
        sum = refl;
        listeners = all_after a b s.listener d rests h.other;
        others = smokers_after (third a b) s _ h.smokers;
      }))
]

swapped : (a b c : Resource) (s : System) → Adds a b c s → Adds b a c s
swapped a b c s h = record { other = h.other; smokers = h.smokers; sum = ground (arith, h.sum) }

map_left : {A B C : Type 0} → (A → C) → A ⊎ B → C ⊎ B
map_left f (inl a) = inl (f a)
map_left f (inr b) = inr b

-- A listener that has been woken in an open round is one of the two.
pub Added-listener_round :
    (m r : Resource) (s : System)
    → at s.listener r ≡ listener_woken
    → Added m s
    → Added m (listener_round r s) ⊎ Smokes m (listener_round r s)
Added-listener_round match paper s w h = Adds-listener_round paper tobacco s refl w h
Added-listener_round match tobacco s w h =
    map_left (swapped tobacco paper match _)
      (Adds-listener_round tobacco paper s refl w (swapped paper tobacco match s h))
Added-listener_round paper match s w h = Adds-listener_round match tobacco s refl w h
Added-listener_round paper tobacco s w h =
    map_left (swapped tobacco match paper _)
      (Adds-listener_round tobacco match s refl w (swapped match tobacco paper s h))
Added-listener_round tobacco match s w h = Adds-listener_round match paper s refl w h
Added-listener_round tobacco paper s w h =
    map_left (swapped paper match tobacco _)
      (Adds-listener_round paper match s refl w (swapped match paper tobacco s h))
Added-listener_round match match s w h = absurd (rw w at h.other)
Added-listener_round paper paper s w h = absurd (rw w at h.other)
Added-listener_round tobacco tobacco s w h = absurd (rw w at h.other)
