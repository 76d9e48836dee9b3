-- ===== src/Tests/Caching.antt =====
-- Examples for the cache: two sets of two lines with eight bytes each.
use cs_261_basics_of_compute.Prelude.{ℕ, ◌+◌, ◌^◌, ◌%◌, ◌≡◌, refl, false, arith}
use cs_261_basics_of_compute.Cache.Defs.{Lines, Cache, long_at, cache_read}
use cs_261_basics_of_compute.Cache.Hit.{cache_read-cache_read}
use cs_261_basics_of_compute.Cache.Mirror.{Mirrors, cache_read-Mirrors}
use cs_261_basics_of_compute.Cache.Sums.{sum_a, sum_b, sum_c}
use cs_261_basics_of_compute.Cache.Totals.{total, sums-total}

abbrev empty_lines : Lines
empty_lines k = record { is_valid = false; tag = k; bytes = λ o. 255 }

abbrev counting : ℕ → ℕ
counting a = a % 256

abbrev small_cache : Cache
small_cache = record {
  num_sets = 2;
  associativity = 2;
  block_size = 8;
  block_offset_mask = 7;
  cache_index_mask = 1;
  cache_index_shift = 3;
  tag_shift = 4;
  policies = 1;
  sets = λ i. empty_lines;
  access_count = 0;
  miss_count = 0;
}

small_cache-Mirrors : Mirrors counting 3 1 small_cache
small_cache-Mirrors = record {
  block_size = refl;
  offset_mask = refl;
  index_mask = refl;
  index_shift = refl;
  tag_shift = refl;
  lines = omega arith;
  copies = λ i lt k q valid o small. absurd (ground (arith, valid));
}

cache_read-Mirrors_example :
    ((cache_read counting small_cache 48).0 ≡ long_at counting 48)
    × Mirrors counting 3 1 (cache_read counting small_cache 48).1
cache_read-Mirrors_example =
    cache_read-Mirrors counting 3 1 small_cache small_cache-Mirrors 48 (omega arith) (omega arith)

cache_read-cache_read_example :
    let c' = (cache_read counting small_cache 48).1 in
    ((cache_read (λ a. 0) c' (2 ^ 32 + 48)).0 ≡ (cache_read counting small_cache 48).0)
    × ((cache_read (λ a. 0) c' (2 ^ 32 + 48)).1.miss_count ≡ c'.miss_count)
cache_read-cache_read_example =
    cache_read-cache_read counting (λ a. 0) small_cache 48 (2 ^ 32 + 48) (omega arith) (omega arith)

sums-total_example :
    ((sum_a counting 48 2 4 small_cache).sum
      ≡ total counting 48 3 1 (omega arith) refl 2 4 % 2 ^ 64)
    × ((sum_b counting 48 2 4 small_cache).sum
        ≡ total counting 48 3 1 (omega arith) refl 2 4 % 2 ^ 64)
    × ((sum_c counting 48 2 4 small_cache).sum
        ≡ total counting 48 3 1 (omega arith) refl 2 4 % 2 ^ 32)
sums-total_example =
    sums-total counting 48 3 1 (omega arith) refl 2 4 (omega arith) small_cache small_cache-Mirrors
      1 2 (omega arith) (omega arith)
