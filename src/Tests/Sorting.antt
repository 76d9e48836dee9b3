-- ===== src/Tests/Sorting.antt =====
-- Examples for the sort.
use cs_261_basics_of_compute.Prelude.{◌≡◌, some, arith, ◌==◌, if◌then◌else◌}
use cs_261_basics_of_compute.Prelude.Int.{pos, negsuc}
use cs_261_basics_of_compute.Sort.{Mem, quick_sort}
use cs_261_basics_of_compute.Sort.Recursion.{Sorts, quick_sort-Sorts}

abbrev numbers : Mem
numbers x = if x == 2 then pos 7 else if x == 3 then negsuc 4 else if x == 4 then pos 7 else pos 1

quick_sort-Sorts_example : (m' : Mem) × (quick_sort 5 2 4 numbers ≡ some m') × Sorts 2 4 numbers m'
quick_sort-Sorts_example = quick_sort-Sorts 5 2 4 numbers (omega arith)
