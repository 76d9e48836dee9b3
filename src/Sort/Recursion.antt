-- ===== src/Sort/Recursion.antt =====
-- `quickSort` of lab3/sort.c returns, and leaves the range sorted.
use cs_261_basics_of_compute.Prelude.{
  ℕ, zero, suc, ◌+◌, ◌-◌, ◌≤◌, ◌<◌, ◌≡◌, refl, some, Bool, false, not, arith, leb, Bool-cases, inl,
  inr, dec_lt, ◌∙◌, ap,
}
use cs_261_basics_of_compute.Prelude.Int.{ℤ, leb_ℤ, ◌≤ℤ◌}
use cs_261_basics_of_compute.Sort.{Mem, partition, then_sort, quick_sort}
use cs_261_basics_of_compute.Sort.Count.{
  SameOutside, Rearranged, count_if, count_if_around, count_if-cong, count_if-eq-zero,
  false_of_count_if,
}
use cs_261_basics_of_compute.Sort.Partition.{Partitioned, partition-Partitioned}

abbrev pub IsSorted : (a n : ℕ) → Mem → Type 0
IsSorted a n m = (x y : ℕ) → a ≤ x → x ≤ y → y < a + n → m x ≤ℤ m y

-- `m'` is what sorting the `n` cells of `m` from `a` on has to give.
pub record Sorts (a n : ℕ) (m m' : Mem) : Type 0 where
  pub sorted : IsSorted a n m'
  pub perm : Rearranged a n m m'
  pub same : SameOutside a n m m'

-- A test that every cell of a range fails is failed by every cell of a rearrangement.
false_of_Rearranged :
    (p : ℤ → Bool) (a n : ℕ) (m m' : Mem)
    → Rearranged a n m m'
    → ((x : ℕ) → a ≤ x → x < a + n → p (m x) ≡ false)
    → (x : ℕ) → a ≤ x
    → x < a + n
    → p (m' x) ≡ false
false_of_Rearranged p a n m m' r h = false_of_count_if p a n m' (r p ∙ count_if-eq-zero p a n m h)

Sorts-short : (a n : ℕ) (m : Mem) → n ≤ 1 → Sorts a n m m
Sorts-short a n m h = record {
  sorted = λ x y p q r. let e : x ≡ y = omega arith in rw e (omega arith);
  perm = λ p. refl;
  same = λ x o. refl;
}

-- The two parts, sorted one after the other, with the pivot between them.
module _ (a i k len : ℕ) (m m1 m2 m3 : Mem) (size : len ≡ (i - a) + (1 + k))
    (p : Partitioned a len m i m1) (left : Sorts a (i - a) m1 m2)
    (right : Sorts (i + 1) k m2 m3) where
  open p use {lo, hi}

  pivot_stays : m3 i ≡ m1 i
  pivot_stays = right.same i (inl (omega arith)) ∙ left.same i (inr (omega arith))

  below_pivot : (x : ℕ) → a ≤ x → x < i → m3 x ≤ℤ m3 i
  below_pivot x q r = ground (
    arith,
    pivot_stays,
    right.same x (inl (omega arith)),
    false_of_Rearranged (λ v. not (leb_ℤ v (m1 i))) a (i - a) m1 m2 left.perm
        (λ y s t. ground (arith, p.below y s)) x q (omega arith),
  )

  above_pivot : (x : ℕ) → i < x → x < i + 1 + k → m3 i ≤ℤ m3 x
  above_pivot x q r = ground (
    arith,
    pivot_stays,
    false_of_Rearranged (λ v. leb_ℤ v (m1 i)) (i + 1) k m2 m3 right.perm
        (λ y s t. ground (arith, p.above y, left.same y)) x (omega arith) r,
  )

  join-IsSorted : IsSorted a len m3
  join-IsSorted x y q r t = elim (dec_lt y i) [
    | yes both ↦ ground (
      arith,
      left.sorted x y q r (omega arith),
      right.same x (inl (omega arith)),
      right.same y (inl (omega arith)),
    )
    | no high ↦ elim (dec_lt i x) [
      | yes above ↦ right.sorted x y (omega arith) r (omega arith)
      | no low ↦ ground (arith, below_pivot x q, above_pivot y, pivot_stays)
    ]
  ]

  join_perm : Rearranged a len m m3
  join_perm t = ground (
    arith,
    p.perm t,
    ap (λ n. count_if t a n m1) size,
    ap (λ n. count_if t a n m3) size,
    count_if_around t a (i - a) k i m1 (omega arith),
    count_if_around t a (i - a) k i m3 (omega arith),
    left.perm t,
    right.perm t,
    count_if-cong t a (i - a) m2 m3 (λ x q r. right.same x (inl (omega arith))),
    count_if-cong t (i + 1) k m1 m2 (λ x q r. left.same x (inr (omega arith))),
    pivot_stays,
  )

  join_same : SameOutside a len m m3
  join_same x o = ground (arith, p.same x, left.same x, right.same x)

  join-Sorts : Sorts a len m m3
  join-Sorts = record { sorted = join-IsSorted; perm = join_perm; same = join_same }

-- With more fuel than cells `quick_sort` returns, and its result sorts the range.
pub quick_sort-Sorts :
    (f a len : ℕ) (m : Mem)
    → len < f
    → (m' : Mem) × (quick_sort f a len m ≡ some m') × Sorts a len m m'
unfolding quick_sort then_sort
quick_sort-Sorts zero a len m h = absurd (omega arith)
quick_sort-Sorts (suc f) a len m h = elim (Bool-cases (leb len 1)) [
  | inl short ↦ (m, rw (short, quick_sort), Sorts-short a len m (ground arith))
  | inr long ↦
      let (i, m1) = partition a len m in
      let p = partition-Partitioned a len m (ground arith) in
      let (m2, e2, left) = quick_sort-Sorts f a (i - a) m1 (omega arith) in
      let (m3, e3, right) = quick_sort-Sorts f (i + 1) (len - (i - a) - 1) m2 (omega arith) in
      (
        m3,
        rw (long, quick_sort, e2, e3),
        join-Sorts a i (len - (i - a) - 1) len m m1 m2 m3 (omega arith) p left right,
      )
]
