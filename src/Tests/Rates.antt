-- ===== src/Tests/Rates.antt =====
-- The program of lab6/cache-test.c, with its array at the address 65536.
use cs_261_basics_of_compute.Prelude.{ℕ, ◌%◌, ◌≡◌, some, refl, true, arith}
use cs_261_basics_of_compute.Cache.Defs.{Lines}
use cs_261_basics_of_compute.Cache.Rates.{miss_rate, main, main-miss_rate}

abbrev garbage : ℕ → Lines
garbage i k = record { is_valid = true; tag = k; bytes = λ o. 255 }

abbrev counting : ℕ → ℕ
counting a = a % 256

main-miss_rate_example : main counting 65536 garbage garbage garbage ≡ (
  some (record { sum = 4720640; stats = miss_rate 512 4096 }),
  some (record { sum = 4720640; stats = miss_rate 4096 4096 }),
  some (record { sum = 4720640; stats = miss_rate 2048 4096 }),
)
main-miss_rate_example = main-miss_rate counting 65536 refl (omega arith) garbage garbage garbage
