-- ===== src/Tests/Exercise.antt =====
-- The allocator's exercise, with a `rand` that returns 8 each time.
use cs_261_basics_of_compute.Prelude.{ℕ, ◌+◌, ◌^◌, ◌≤◌, ◌<◌, ◌≡◌, refl, some, arith}
use cs_261_basics_of_compute.Prelude.Run.{ok, undefined}
use cs_261_basics_of_compute.Heap.Layout.{null}
use cs_261_basics_of_compute.Harness.Draw.{
  double_while, get_rand_block_size, get_rand_block_size-bounds,
}
use cs_261_basics_of_compute.Harness.Defs.{Locals, Grant, operate, main_loop, set_up, main}
use cs_261_basics_of_compute.Harness.Rounds.{Outcome, DrawsEights}
use cs_261_basics_of_compute.Harness.Started.{Ample, set_up-Outcome}
use cs_261_basics_of_compute.Harness.Odd.{main_odd}

abbrev eight : ℕ → ℕ
eight k = 8

draws : (k : ℕ) → get_rand_block_size eight k ≡ ok (520, k + 9)
unfolding get_rand_block_size double_while
draws k = let e : k + 1 + 1 + 1 + 1 + 1 + 1 + 1 + 1 + 1 ≡ k + 9 = omega arith in rw e refl

eights : (n : ℕ) (s : Locals) → DrawsEights (2 ^ 18) eight n s
eights n s done lt s' e size d =
    let run = d.draws in let run' = draws d.from in ground (arith, run, run')

get_rand_block_size-bounds_example :
    (size : ℕ) × (drawn' : ℕ) × (get_rand_block_size eight 0 ≡ ok (size, drawn'))
    × (4 ≤ size)
    × (size < 4096)
get_rand_block_size-bounds_example = get_rand_block_size-bounds eight 0

abbrev granted : Grant
granted = record { sbrk = some (2 ^ 32, λ x. 0); pointers = λ i. 0 }

grant-Ample : Ample granted
grant-Ample = record {
  brk = 2 ^ 32;
  mem = λ x. 0;
  granted = refl;
  below = omega arith;
  words = λ x. omega arith;
}

set_up-Outcome_example :
    (s : Locals) × (set_up granted granted granted ≡ ok s)
    × Outcome (2 ^ 18) eight s.first.heap s.best.heap s 100 (main_loop null (2 ^ 18) eight 100 s)
set_up-Outcome_example =
    set_up-Outcome (2 ^ 18) (omega arith) eight granted granted granted 100 grant-Ample grant-Ample
      grant-Ample (λ s e. eights 100 s)

four : get_rand_block_size (λ k. 0) 0 ≡ ok (4, 3)
unfolding get_rand_block_size double_while
four = refl

-- A `rand` that returns 0 each time draws 4.
main_odd_example :
    (s : Locals) × (set_up granted granted granted ≡ ok s)
    × (operate null 2 (λ k. 0) s ≡ undefined)
    × (main null 2 (λ k. 0) granted granted granted ≡ undefined)
main_odd_example =
    main_odd null 2 (λ k. 0) 4 3 four (λ e. ground (arith, e)) (omega arith) granted granted granted
      grant-Ample grant-Ample grant-Ample
