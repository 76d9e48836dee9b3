-- ===== src/Cache/Order.antt =====
-- The order of the lines of a set.
use cs_261_basics_of_compute.Prelude.{
  ℕ, zero, suc, ◌+◌, ◌-◌, ◌≤◌, ◌<◌, ◌≡◌, ◌≢◌, false, ◌&&◌, Option, none, some, arith, leb, ◌==◌,
  if◌then◌else◌, Bool-cases, inl, inr,
}
use cs_261_basics_of_compute.Prelude.Store.{write}
use cs_261_basics_of_compute.Cache.Defs.{Lines, shift_lines, cache_line_make_mru, find_tag}

shift_lines_lem :
    (n : ℕ) (lines : Lines) (x : ℕ)
    → shift_lines n lines x ≡ (if leb 1 x && leb x n then lines (x - 1) else lines x)
unfolding shift_lines write
shift_lines_lem zero lines x = ground arith
shift_lines_lem (suc n) lines x =
    ground (arith, shift_lines_lem n (write lines (n + 1) (lines n)) x)

-- Line `k` comes to the front, and those before it move back by one.
pub cache_line_make_mru_lem :
    (lines : Lines) (k x : ℕ)
    → cache_line_make_mru lines k x
      ≡ (if x == 0 then lines k else if leb x k then lines (x - 1) else lines x)
unfolding cache_line_make_mru write
cache_line_make_mru_lem lines k x = ground (arith, shift_lines_lem k lines x)

-- What the search for a tag finds: the first line with it.
pub data FindsTag (n i : ℕ) (lines : Lines) (tag : ℕ) : Option ℕ → Type 0 where
  missing : ((x : ℕ) → i ≤ x → x < i + n → (lines x).tag ≢ tag) → FindsTag n i lines tag none
  present :
      {k : ℕ}
      → i ≤ k
      → k < i + n
      → (lines k).tag ≡ tag
      → ((x : ℕ) → i ≤ x → x < k → (lines x).tag ≢ tag)
      → FindsTag n i lines tag (some k)

FindsTag-later :
    (n i : ℕ) (lines : Lines) (tag : ℕ) (o : Option ℕ)
    → ((lines i).tag == tag) ≡ false
    → FindsTag n (i + 1) lines tag o
    → FindsTag (suc n) i lines tag o
FindsTag-later n i lines tag _ e (missing none_has) =
    missing (λ x p q t. ground (arith, none_has x))
FindsTag-later n i lines tag _ e (present lo hi has first) =
    present (omega arith) (omega arith) has (λ x p q t. ground (arith, first x))

pub find_tag-FindsTag :
    (n i : ℕ) (lines : Lines) (tag : ℕ) → FindsTag n i lines tag (find_tag n i lines tag)
unfolding find_tag
find_tag-FindsTag zero i lines tag = missing (λ x p q. absurd (omega arith))
find_tag-FindsTag (suc n) i lines tag = elim (Bool-cases ((lines i).tag == tag)) [
  | inl here ↦
      rw here (present (omega arith) (omega arith) (ground arith) (λ x p q. absurd (omega arith)))
  | inr other ↦
      rw other (FindsTag-later n i lines tag _ other (find_tag-FindsTag n (i + 1) lines tag))
]
