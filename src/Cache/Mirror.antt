-- ===== src/Cache/Mirror.antt =====
-- The cache of lab6/cache.c holds copies of memory.
use native.Mathlib.Nat.{
  div-div-eq-div-mul, mod-add-div', mod-lt, pow-suc, pow-zero, add-suc, add-zero, mul_assoc,
}
use cs_261_basics_of_compute.Prelude.{
  ℕ, zero, suc, ◌+◌, ◌-◌, ◌*◌, ◌/◌, ◌^◌, ◌%◌, ◌≤◌, ◌<◌, ◌≡◌, refl, Bool, true, arith, ltb, leb,
  ◌==◌, Bool-cases, inl, inr, ap, sym, ◌∙◌,
}
use cs_261_basics_of_compute.Prelude.Store.{write}
use cs_261_basics_of_compute.Cache.Defs.{
  Lines, Cache, u32, int_shift, and_mask, clear_mask, long_at, cache_line_make_mru,
  find_available_cache_line, cache_set_add, copy_block, provide_line, cache_read,
  cache_line_retrieve_data,
}
use cs_261_basics_of_compute.Cache.Order.{cache_line_make_mru_lem}
use cs_261_basics_of_compute.Cache.Hit.{
  Provided, hit, invalid, absent, provide_line-Provided, Provided-front,
}

-- Every valid line of set `index` is a copy of the block that its tag and the set stand for.
abbrev pub SetMirrors : (mem : ℕ → ℕ) (b s associativity index : ℕ) → Lines → Type 0
SetMirrors mem b s associativity index lines =
    (k : ℕ)
    → k < associativity
    → (lines k).is_valid ≡ true
    → (o : ℕ) → o < 2 ^ b
    → (lines k).bytes o ≡ mem (((lines k).tag * 2 ^ s + index) * 2 ^ b + o)

-- A cache of 2^s sets, with blocks of 2^b bytes, that holds copies of memory.
pub record Mirrors (mem : ℕ → ℕ) (b s : ℕ) (c : Cache) : Type 0 where
  pub block_size : c.block_size ≡ 2 ^ b
  pub offset_mask : c.block_offset_mask + 1 ≡ 2 ^ b
  pub index_mask : c.cache_index_mask + 1 ≡ 2 ^ s
  pub index_shift : c.cache_index_shift ≡ b
  pub tag_shift : c.tag_shift ≡ b + s
  pub lines : 0 < c.associativity
  pub copies : (index : ℕ) → index < 2 ^ s → SetMirrors mem b s c.associativity index (c.sets index)

-- Every line of a set that has been reordered was one of the set.
make_mru_from :
    (lines : Lines) (n k x : ℕ)
    → k < n
    → x < n
    → (y : ℕ) × (y < n) × (cache_line_make_mru lines k x ≡ lines y)
make_mru_from lines n k x p q = elim (Bool-cases (x == 0)) [
  | inl e ↦ (k, p, rw (cache_line_make_mru_lem lines k x) (rw e refl))
  | inr e ↦ elim (Bool-cases (leb x k)) [
    | inl f ↦ (x - 1, omega arith, rw (cache_line_make_mru_lem lines k x) (rw (e, f) refl))
    | inr f ↦ (x, q, rw (cache_line_make_mru_lem lines k x) (rw (e, f) refl))
  ]
]

module _ (mem : ℕ → ℕ) (b s : ℕ) (c : Cache) (w : Mirrors mem b s c) (index : ℕ) where
  SetMirrors-make_mru :
      (lines : Lines) (k : ℕ)
      → k < c.associativity
      → SetMirrors mem b s c.associativity index lines
      → SetMirrors mem b s c.associativity index (cache_line_make_mru lines k)
  SetMirrors-make_mru lines k p h x q valid o lt =
      let (y, y_lt, e) = make_mru_from lines c.associativity k x p q in
      rw e (h y y_lt (rw e at valid) o lt)

  SetMirrors-add :
      (lines : Lines) (a tag : ℕ)
      → clear_mask a c.block_offset_mask ≡ (tag * 2 ^ s + index) * 2 ^ b
      → SetMirrors mem b s c.associativity index lines
      → SetMirrors mem b s c.associativity index (cache_set_add mem c lines a tag)
  unfolding cache_set_add find_available_cache_line write copy_block
  SetMirrors-add lines a tag place h x q valid o lt =
      let some_lines = w.lines in
      let size = w.block_size in
      elim (Bool-cases (x == 0)) [
        | inl e ↦ rw (e, place, size) (ground arith)
        | inr e ↦ rw e (
            SetMirrors-make_mru lines (c.associativity - 1) (omega arith) h x q (rw e at valid) o
              lt)
      ]

  SetMirrors-Provided :
      (lines : Lines) (a tag : ℕ) (r : Lines × Bool)
      → clear_mask a c.block_offset_mask ≡ (tag * 2 ^ s + index) * 2 ^ b
      → SetMirrors mem b s c.associativity index lines
      → Provided mem c lines a tag r
      → SetMirrors mem b s c.associativity index r.0
  SetMirrors-Provided lines a tag _ place h (hit {k = k} lt has valid) =
      SetMirrors-make_mru lines k lt h
  SetMirrors-Provided lines a tag _ place h (invalid {k = k} lt has stale) =
      SetMirrors-add (cache_line_make_mru lines k) a tag place (SetMirrors-make_mru lines k lt h)
  SetMirrors-Provided lines a tag _ place h (absent none_has) = SetMirrors-add lines a tag place h

SetMirrors-write :
    (mem : ℕ → ℕ) (b s : ℕ) (c : Cache) (w : Mirrors mem b s c) (index : ℕ) (lines : Lines)
    → SetMirrors mem b s c.associativity index lines
    → (i : ℕ) → i < 2 ^ s
    → SetMirrors mem b s c.associativity i (write c.sets index lines i)
unfolding write
SetMirrors-write mem b s c w index lines h i lt = elim (Bool-cases (i == index)) [
  | inl e ↦ let same : i ≡ index = ground arith in rw (e, same) h
  | inr e ↦ rw e (w.copies i lt)
]

two_pow_add : (b s : ℕ) → 2 ^ (b + s) ≡ 2 ^ b * 2 ^ s
two_pow_add b zero = rw (add-zero b) (omega (arith, pow-zero 2))
two_pow_add b (suc s) =
    rw (add-suc b s, pow-suc 2 (b + s), pow-suc 2 s, two_pow_add b s) (mul_assoc (2 ^ b) (2 ^ s) 2)

pub two_pow_pos : (b : ℕ) → 0 < 2 ^ b
two_pow_pos zero = omega (arith, pow-zero 2)
two_pow_pos (suc b) = omega (arith, pow-suc 2 b, two_pow_pos b)

-- The parts of an address: tag, set, and offset.
block_number : (a b s : ℕ) → a / 2 ^ b ≡ a / 2 ^ (b + s) * 2 ^ s + a / 2 ^ b % 2 ^ s
block_number a b s =
    let e = mod-add-div' (a / 2 ^ b) (2 ^ s) in
    let d = div-div-eq-div-mul a (2 ^ b) (2 ^ s) in rw (two_pow_add b s, sym d) (omega (arith, e))

int_shift_small : (a k : ℕ) → a < 2 ^ 31 → int_shift a k ≡ a / 2 ^ k
unfolding int_shift
int_shift_small a k p =
    let low : u32 a ≡ a = omega arith in
    let test : ltb a (2 ^ 31) ≡ true = ground arith in rw (low, test) refl

long_at-cong :
    (m m' : ℕ → ℕ) (x y : ℕ)
    → ((j : ℕ) → j < 8 → m (x + j) ≡ m' (y + j))
    → long_at m x ≡ long_at m' y
unfolding long_at
long_at-cong m m' x y h =
    let at = λ (j : ℕ) (p : j < 8). h j p in
    let e0 : m x ≡ m' y = ground (arith, at 0 (omega arith)) in
    rw
      (
        e0,
        at 1 (omega arith),
        at 2 (omega arith),
        at 3 (omega arith),
        at 4 (omega arith),
        at 5 (omega arith),
        at 6 (omega arith),
        at 7 (omega arith),
      )
      refl

module _ (mem : ℕ → ℕ) (b s : ℕ) (c : Cache) (w : Mirrors mem b s c) (a : ℕ)
    (small : a < 2 ^ 31) where
  pub set_of : and_mask (int_shift a c.cache_index_shift) c.cache_index_mask ≡ a / 2 ^ b % 2 ^ s
  unfolding and_mask
  set_of = rw (int_shift_small a c.cache_index_shift small, w.index_shift, w.index_mask) refl

  pub tag_of : int_shift a c.tag_shift ≡ a / 2 ^ (b + s)
  tag_of = rw (int_shift_small a c.tag_shift small, w.tag_shift) refl

  offset_of : and_mask (int_shift a 0) c.block_offset_mask ≡ a % 2 ^ b
  unfolding and_mask
  offset_of =
      let whole : a / 2 ^ 0 ≡ a = omega (arith, pow-zero 2) in
      rw (int_shift_small a 0 small, w.offset_mask, whole) refl

  block_of :
      clear_mask a c.block_offset_mask ≡ (a / 2 ^ (b + s) * 2 ^ s + a / 2 ^ b % 2 ^ s) * 2 ^ b
  unfolding clear_mask
  block_of = rw (w.offset_mask, sym (block_number a b s)) (omega (arith, mod-add-div' a (2 ^ b)))

  -- A cache of copies of memory returns what memory holds, and stays one, for every `long` that lies in
  -- one block below the address 2^31.
  pub cache_read-Mirrors :
      a % 2 ^ b + 8 ≤ 2 ^ b
      → ((cache_read mem c a).0 ≡ long_at mem a) × Mirrors mem b s (cache_read mem c a).1
  unfolding cache_read cache_line_retrieve_data
  cache_read-Mirrors within =
      let index = a / 2 ^ b % 2 ^ s in
      let tag = a / 2 ^ (b + s) in
      let r = provide_line mem c (c.sets index) a tag in
      let in_range : index < 2 ^ s = mod-lt (a / 2 ^ b) (two_pow_pos s) in
      let good : SetMirrors mem b s c.associativity index r.0 =
        SetMirrors-Provided mem b s c w index (c.sets index) a tag r block_of
          (w.copies index in_range) (provide_line-Provided mem c (c.sets index) a tag) in
      let (has, valid) =
        Provided-front mem c (c.sets index) a tag r
          (provide_line-Provided mem c (c.sets index) a tag) in
      let block : clear_mask a c.block_offset_mask ≡ (tag * 2 ^ s + index) * 2 ^ b = block_of in
      let start : a ≡ (tag * 2 ^ s + index) * 2 ^ b + a % 2 ^ b =
        rw (sym (block_number a b s)) (omega (arith, mod-add-div' a (2 ^ b))) in
      rw (set_of, tag_of, offset_of)
        (
          long_at-cong (r.0 0).bytes mem (a % 2 ^ b) a (λ j p.
              rw has at (good 0 w.lines valid (a % 2 ^ b + j) (omega arith))
              ∙ ap mem (omega (arith, start))),
          record {
            block_size = w.block_size;
            offset_mask = w.offset_mask;
            index_mask = w.index_mask;
            index_shift = w.index_shift;
            tag_shift = w.tag_shift;
            lines = w.lines;
            copies = λ i lt. SetMirrors-write mem b s c w index r.0 good i lt;
          },
        )
