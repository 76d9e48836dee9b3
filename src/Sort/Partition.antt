-- ===== src/Sort/Partition.antt =====
-- The loop of lab3/sort.c that moves the small cells to the front, and the exchange behind it.
use cs_261_basics_of_compute.Prelude.{
  ℕ, zero, suc, ◌+◌, ◌-◌, ◌≤◌, ◌<◌, ◌≡◌, refl, ◌⊎◌, true, false, arith, Bool-cases, inl, inr,
  dec_lt, ◌∙◌,
}
use native.Mathlib.Nat.{add-zero}
use cs_261_basics_of_compute.Prelude.Int.{ℤ, leb_ℤ}
use cs_261_basics_of_compute.Prelude.Store.{write}
use cs_261_basics_of_compute.Sort.{Mem, exchange, partition_loop, partition}
use cs_261_basics_of_compute.Sort.Count.{SameOutside, Rearranged, count_if-write}

exchange-Rearranged :
    (a n : ℕ) (m : Mem) (j i : ℕ)
    → a ≤ j
    → j < a + n
    → a ≤ i
    → i < a + n
    → Rearranged a n m (exchange m j i)
unfolding exchange write
exchange-Rearranged a n m j i lj hj li hi p = ground (
  arith,
  count_if-write p a n m j (m i) lj hj,
  count_if-write p a n (write m j (m i)) i (m j) li hi,
)

-- The cells from `a` to `i` are small, those from `i` to `high` are not, and the array is a
-- rearrangement of `m` that differs from it at most from `a` to `high`.
pub record Split (a n : ℕ) (pivot : ℤ) (m : Mem) (high i : ℕ) (m' : Mem) : Type 0 where
  pub lo : a ≤ i
  pub hi : i ≤ high
  pub below : (x : ℕ) → a ≤ x → x < i → leb_ℤ (m' x) pivot ≡ true
  pub above : (x : ℕ) → i ≤ x → x < high → leb_ℤ (m' x) pivot ≡ false
  pub same : (x : ℕ) → (x < a) ⊎ (high ≤ x) → m' x ≡ m x
  pub perm : Rearranged a n m m'

module _ (a n : ℕ) (pivot : ℤ) (m : Mem) where
  Split-small :
      (j i : ℕ) (m' : Mem)
      → Split a n pivot m j i m'
      → j < a + n
      → leb_ℤ (m' j) pivot ≡ true
      → Split a n pivot m (j + 1) (i + 1) (exchange m' j i)
  unfolding exchange write
  Split-small j i m' s lt small = record {
    lo = omega arith;
    hi = omega arith;
    below = λ x p q. ground (arith, s.below x p);
    above = λ x p q. ground (arith, s.above x, s.above i);
    same = λ x o. ground (arith, s.same x);
    perm = λ p. exchange-Rearranged a n m' j i (omega arith) lt s.lo (omega arith) p ∙ s.perm p;
  }
    where
      open s use {lo, hi}

  Split-large :
      (j i : ℕ) (m' : Mem)
      → Split a n pivot m j i m'
      → leb_ℤ (m' j) pivot ≡ false
      → Split a n pivot m (j + 1) i m'
  Split-large j i m' s large = record {
    lo = s.lo;
    hi = omega arith;
    below = s.below;
    above = λ x p q. elim (dec_lt x j) [
      | yes old ↦ s.above x p old
      | no new ↦ let e : x ≡ j = omega arith in rw e large
    ];
    same = λ x o. s.same x (omega arith);
    perm = s.perm;
  }

  partition_loop-Split :
      (k j i : ℕ) (m' : Mem)
      → Split a n pivot m j i m'
      → j + k ≤ a + n
      → Split a n pivot m
          (j + k)
          (partition_loop k pivot i j m').0
          (partition_loop k pivot i j m').1
  unfolding partition_loop
  partition_loop-Split zero j i m' s h = rw add-zero s
  partition_loop-Split (suc k) j i m' s h =
      let e : j + suc k ≡ (j + 1) + k = omega arith in
      rw e (elim (Bool-cases (leb_ℤ (m' j) pivot)) [
        | inl small ↦
            rw (small, partition_loop)
              (partition_loop-Split k (j + 1) (i + 1) (exchange m' j i)
                (Split-small j i m' s (omega arith) small) (omega arith))
        | inr large ↦
            rw (large, partition_loop)
              (partition_loop-Split k (j + 1) i m' (Split-large j i m' s large) (omega arith))
      ])

-- What `partition` establishes: the pivot lies at `i`, and the other cells on their sides of it.
pub record Partitioned (a len : ℕ) (m : Mem) (i : ℕ) (m' : Mem) : Type 0 where
  pub lo : a ≤ i
  pub hi : i < a + len
  pub below : (x : ℕ) → a ≤ x → x < i → leb_ℤ (m' x) (m' i) ≡ true
  pub above : (x : ℕ) → i < x → x < a + len → leb_ℤ (m' x) (m' i) ≡ false
  pub same : SameOutside a len m m'
  pub perm : Rearranged a len m m'

place_pivot :
    (a len high i : ℕ) (m m' : Mem)
    → a + len ≡ high + 1
    → Split a len (m high) m high i m'
    → Partitioned a len m i (exchange m' high i)
unfolding exchange write
place_pivot a len high i m m' e s = record {
  lo = lo;
  hi = omega arith;
  below = λ x p q. ground (arith, s.below x p, s.same high);
  above = λ x p q. ground (arith, s.above x, s.above i, s.same high);
  same = λ x o. ground (arith, s.same x);
  perm = λ p.
      exchange-Rearranged a len m' high i (omega arith) (omega arith) lo (omega arith) p ∙ s.perm p;
}
  where
    open s use {lo, hi}

-- On at least two cells, the partition puts the pivot between the cells that are not larger and those
-- that are, rearranges the range, and changes no other cell.
pub partition-Partitioned :
    (a len : ℕ) (m : Mem)
    → 1 < len
    → Partitioned a len m (partition a len m).0 (partition a len m).1
unfolding partition
partition-Partitioned a len m h =
    let high : ℕ = a + len - 1 in
    let start : Split a len (m high) m a a m = record {
      lo = omega arith;
      hi = omega arith;
      below = λ x p q. absurd (omega arith);
      above = λ x p q. absurd (omega arith);
      same = λ x o. refl;
      perm = λ p. refl;
    } in
    let e : a + (high - a) ≡ high = omega arith in
    let done = partition_loop-Split a len (m high) m (high - a) a a m start (omega arith) in
    place_pivot a len high _ m _ (omega arith) (rw e at done)
