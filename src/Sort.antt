-- ===== src/Sort.antt =====
-- lab3/sort.c: `quickSort` over an array of `long`. The array is a store of integers, a pointer
-- into it is the index of its cell, and the cells are only compared and moved.
pub mod Count
pub mod Partition
pub mod Recursion
use cs_261_basics_of_compute.Prelude.{
  ℕ, zero, suc, ◌+◌, ◌-◌, Option, none, some, true, false, leb, if◌then◌else◌,
}
use cs_261_basics_of_compute.Prelude.Int.{ℤ, leb_ℤ}
use cs_261_basics_of_compute.Prelude.Store.{write}

abbrev pub Mem : Type 0
Mem = ℕ → ℤ

-- `long t = *j; *j = *i; *i = t;`
pub exchange : Mem → ℕ → ℕ → Mem
exchange m j i = write (write m j (m i)) i (m j)

-- `while (j < high)`, with the `high - j` rounds that are left. The result is the final `i`.
pub partition_loop : ℕ → ℤ → (i j : ℕ) → Mem → ℕ × Mem
partition_loop zero pivot i j m = (i, m)
partition_loop (suc k) pivot i j m =
    let small = leb_ℤ (m j) pivot in
    partition_loop k pivot (if small then i + 1 else i) (j + 1)
      (if small then exchange m j i else m)

-- The body of `quickSort` up to its recursive calls: the place of the pivot, and the array.
pub partition : (a len : ℕ) → Mem → ℕ × Mem
unfolding exchange partition_loop
partition a len m =
    let high = a + len - 1 in
    let (i, m') = partition_loop (high - a) (m high) a a m in (i, exchange m' high i)

-- The second recursive call, on the part behind the pivot.
pub then_sort : Option Mem → (Mem → Option Mem) → Option Mem
then_sort none next = none
then_sort (some m) next = next m

-- `none` means that the fuel, a bound on the depth of the recursion, ran out.
pub quick_sort : ℕ → (a len : ℕ) → Mem → Option Mem
unfolding partition then_sort
quick_sort zero a len m = none
quick_sort (suc f) a len m = elim (leb len 1) [
  | true ↦ some m
  | false ↦
      let (i, m') = partition a len m in
      then_sort (quick_sort f a (i - a) m') (quick_sort f (i + 1) (len - (i - a) - 1))
]
