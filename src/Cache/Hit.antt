-- ===== src/Cache/Hit.antt =====
-- Hits and misses of the cache of lab6/cache.c.
use cs_261_basics_of_compute.Prelude.{
  ℕ, zero, suc, ◌<◌, ◌≡◌, ◌≢◌, refl, Bool, true, false, Option, none, some, arith, ◌==◌, Bool-cases,
  inl, inr,
}
use cs_261_basics_of_compute.Prelude.Store.{write, write_self}
use cs_261_basics_of_compute.Cache.Defs.{
  Lines, Cache, u32, int_shift, and_mask, cache_line_make_mru, find_tag,
  cache_set_find_matching_line, cache_set_add, provide_line, check_line, matching_line, cache_read,
  cache_line_check_validity_and_tag,
}
use cs_261_basics_of_compute.Cache.Order.{
  cache_line_make_mru_lem, FindsTag, missing, present, find_tag-FindsTag,
}

-- How a line for a tag is provided: a valid line with the tag comes to the front; otherwise the last
-- line does, and is filled. A line with the tag that is not valid comes to the front before that.
pub data Provided (mem : ℕ → ℕ) (c : Cache) (lines : Lines) (address tag : ℕ)
    : Lines × Bool → Type 0 where
  hit :
      {k : ℕ}
      → k < c.associativity
      → (lines k).tag ≡ tag
      → (lines k).is_valid ≡ true
      → Provided mem c lines address tag (cache_line_make_mru lines k, false)
  invalid :
      {k : ℕ}
      → k < c.associativity
      → (lines k).tag ≡ tag
      → (lines k).is_valid ≡ false
      → Provided mem c lines address tag
          (cache_set_add mem c (cache_line_make_mru lines k) address tag, true)
  absent :
      ((x : ℕ) → x < c.associativity → (lines x).tag ≢ tag)
      → Provided mem c lines address tag (cache_set_add mem c lines address tag, true)

front : (lines : Lines) (k : ℕ) → cache_line_make_mru lines k 0 ≡ lines k
front lines k = rw (cache_line_make_mru_lem lines k 0) refl

module _ (mem : ℕ → ℕ) (c : Cache) (lines : Lines) (address tag : ℕ) where
  found-Provided :
      (o : Option ℕ)
      → find_tag c.associativity 0 lines tag ≡ o
      → FindsTag c.associativity 0 lines tag o
      → Provided mem c lines address tag (provide_line mem c lines address tag)
  unfolding provide_line check_line matching_line cache_set_find_matching_line
      cache_line_check_validity_and_tag
  found-Provided none e (missing none_has) =
      rw e (absent (λ x p. none_has x (omega arith) (omega arith)))
  found-Provided (some k) e (present lo hi has first) =
      let same : ((lines k).tag == tag) ≡ true = ground arith in
      elim (Bool-cases (lines k).is_valid) [
        | inl valid ↦ rw (e, front lines k, same, valid) (hit (omega arith) has valid)
        | inr stale ↦ rw (e, front lines k, same, stale) (invalid (omega arith) has stale)
      ]

  -- A valid line with the tag is a hit and comes to the front; if there is none, the last line comes to
  -- the front and is filled, which is a miss.
  pub provide_line-Provided :
      Provided mem c lines address tag (provide_line mem c lines address tag)
  provide_line-Provided = found-Provided _ refl (find_tag-FindsTag c.associativity 0 lines tag)

  cache_set_add_front :
      ((cache_set_add mem c lines address tag 0).tag ≡ tag)
      × ((cache_set_add mem c lines address tag 0).is_valid ≡ true)
  unfolding cache_set_add write
  cache_set_add_front = (refl, refl)

-- The line that has been provided carries the tag and is valid.
pub Provided-front :
    (mem : ℕ → ℕ) (c : Cache) (lines : Lines) (address tag : ℕ) (r : Lines × Bool)
    → Provided mem c lines address tag r
    → ((r.0 0).tag ≡ tag) × ((r.0 0).is_valid ≡ true)
Provided-front mem c lines address tag _ (hit {k = k} lt has valid) =
    rw (front lines k) (has, valid)
Provided-front mem c lines address tag _ (invalid {k = k} lt has stale) =
    cache_set_add_front mem c (cache_line_make_mru lines k) address tag
Provided-front mem c lines address tag _ (absent none_has) =
    cache_set_add_front mem c lines address tag

first_tag :
    (n : ℕ) (lines : Lines) (tag : ℕ)
    → ((lines 0).tag == tag) ≡ true
    → 0 < n
    → find_tag n 0 lines tag ≡ some 0
unfolding find_tag
first_tag zero lines tag e p = absurd (omega arith)
first_tag (suc n) lines tag e p = rw e refl

-- If line 0 is valid and carries the tag, it is a hit and stays where it is.
provide_line_front :
    (mem : ℕ → ℕ) (c : Cache) (lines : Lines) (address tag : ℕ)
    → 0 < c.associativity
    → ((lines 0).tag ≡ tag) × ((lines 0).is_valid ≡ true)
    → provide_line mem c lines address tag ≡ (cache_line_make_mru lines 0, false)
unfolding provide_line check_line matching_line cache_set_find_matching_line
    cache_line_check_validity_and_tag
provide_line_front mem c lines address tag some_lines (has, valid) =
    let same : ((lines 0).tag == tag) ≡ true = ground arith in
    let found : find_tag c.associativity 0 lines tag ≡ some 0 =
      first_tag c.associativity lines tag same some_lines in
    rw (found, front lines 0, same, valid) refl

int_shift_low : (a a' k : ℕ) → u32 a' ≡ u32 a → int_shift a' k ≡ int_shift a k
unfolding int_shift
int_shift_low a a' k e = rw e refl

-- A second read whose address has the same low 32 bits is a hit, and returns what the first one did,
-- whatever the two addresses and the memory of that time hold.
pub cache_read-cache_read :
    (mem mem' : ℕ → ℕ) (c : Cache) (a a' : ℕ)
    → 0 < c.associativity
    → u32 a' ≡ u32 a
    → let c' = (cache_read mem c a).1 in
      ((cache_read mem' c' a').0 ≡ (cache_read mem c a).0)
      × ((cache_read mem' c' a').1.miss_count ≡ c'.miss_count)
unfolding cache_read
cache_read-cache_read mem mem' c a a' some_lines e =
    let index = and_mask (int_shift a c.cache_index_shift) c.cache_index_mask in
    let tag = int_shift a c.tag_shift in
    let first = provide_line mem c (c.sets index) a tag in
    let c' = (cache_read mem c a).1 in
    let fronted =
      Provided-front mem c (c.sets index) a tag first
        (provide_line-Provided mem c (c.sets index) a tag) in
    let again : provide_line mem' c' first.0 a' tag ≡ (cache_line_make_mru first.0 0, false) =
      provide_line_front mem' c' first.0 a' tag some_lines fronted in
    rw
      (
        int_shift_low a a' c.tag_shift e,
        int_shift_low a a' c.cache_index_shift e,
        int_shift_low a a' 0 e,
        write_self c.sets index first.0,
        again,
        front first.0 0,
      )
      (refl, refl)
