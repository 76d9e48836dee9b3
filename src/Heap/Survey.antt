-- ===== src/Heap/Survey.antt =====
-- The two walks over the whole heap in lab5/implicit.c, lines 185 to 225: `heap_print` and
-- `heap_find_avg_free_block_size`. What is printed is the list of the blocks' lines.
use cs_261_basics_of_compute.Prelude.{
  not, ℕ, zero, suc, ◌+◌, ◌-◌, ◌/◌, ◌^◌, Bool, List, [], ◌∷◌, ltb, ◌==◌, if◌then◌else◌,
}
use cs_261_basics_of_compute.Heap.Layout.{
  Heap, u32, block_is_in_use, get_block_size, get_next_block, is_within_heap_range,
}
use cs_261_basics_of_compute.Heap.Search.{Run, ok, undefined, out_of_fuel, ◌>>=◌}

-- `Block at address`, `Size` and `In use` of one block.
pub record Entry : Type 0 where
  pub address : ℕ
  pub size : ℕ
  pub in_use : Bool

unfoldable pub print_loop : ℕ → Heap → ℕ → Run (List Entry)
print_loop zero h current = out_of_fuel
print_loop (suc k) h current =
    let rest = print_loop k h (get_next_block h.mem current) in
    if is_within_heap_range h current
    then (do
      entries ← rest
      ok (
          record {
            address = current;
            size = get_block_size h.mem current;
            in_use = block_is_in_use h.mem current;
          }
          ∷ entries))
    else ok []

unfoldable pub heap_print : ℕ → Heap → Run (List Entry)
heap_print fuel h = print_loop fuel h h.start

-- The totals `size` and `num_of_block`, both of type `int` and held as 32-bit patterns.
unfoldable pub avg_loop : ℕ → Heap → (size num_of_block current : ℕ) → Run (ℕ × ℕ)
avg_loop zero h size num current = out_of_fuel
avg_loop (suc k) h size num current =
    let idle = not (block_is_in_use h.mem current) in
    let rest =
      avg_loop k h (if idle then u32 (size + get_block_size h.mem current) else size)
        (if idle then u32 (num + 1) else num) (get_next_block h.mem current) in
    if is_within_heap_range h current then rest else ok (size, num)

abbrev is_negative : ℕ → Bool
is_negative w = not (ltb w (2 ^ 31))

abbrev magnitude : ℕ → ℕ
magnitude w = if is_negative w then 2 ^ 32 - w else w

-- `a / b` for two `int`: the magnitudes are divided, and the sign is that of the quotient.
unfoldable pub int_div : ℕ → ℕ → ℕ
int_div a b =
    let q = magnitude a / magnitude b in
    if (if is_negative a then is_negative b else not (is_negative b)) then q else u32 (2 ^ 32 - q)

-- Division by zero is undefined.
unfoldable pub heap_find_avg_free_block_size : ℕ → Heap → Run ℕ
heap_find_avg_free_block_size fuel h = do
  (size, num) ← avg_loop fuel h 0 0 h.start
  if num == 0 then undefined else ok (int_div size num)
