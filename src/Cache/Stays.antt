-- ===== src/Cache/Stays.antt =====
-- Which blocks the cache of lab6/cache-test.c may hold in a sum by columns: the rows `i` and `i + 32`
-- share their sets.
use cs_261_basics_of_compute.Prelude.{
  ℕ, ◌+◌, ◌*◌, ◌%◌, ◌≤◌, ◌<◌, ◌≡◌, ◌≢◌, ◌⊎◌, refl, arith, inl, inr,
}

-- The block of a row, in the group `g` of eight columns.
abbrev pub block_of_row : (start g i : ℕ) → ℕ
block_of_row start g i = start + 8 * i + g

-- A block that may be there, in the group `g` before row `i`: it is of an earlier group, or of one of
-- the last 32 rows that were read, in this column or the one before.
pub record MayStay (start g i block : ℕ) : Type 0 where
  pub row : ℕ
  pub group : ℕ
  pub place : block ≡ block_of_row start group row
  pub narrow : group < 8
  pub order :
      (group < g) ⊎ ((group ≡ g) × (((row < i) × (i ≤ row + 32)) ⊎ ((i + 32 ≤ row) × (row < 64))))

-- The row that comes next is none of them.
pub MayStay-next : (start g i : ℕ) → g < 8 → MayStay start g i (block_of_row start g i) → ⊥
MayStay-next start g i l s =
    let place = s.place in
    let narrow = s.narrow in
    elim s.order [
      | inl before ↦ omega arith
      | inr (same, stays) ↦ elim stays [
        | inl (lo, hi) ↦ omega arith
        | inr (far, inside) ↦ omega arith
      ]
    ]

pub MayStay-read : (start g i : ℕ) → g < 8 → MayStay start g (i + 1) (block_of_row start g i)
MayStay-read start g i l = record {
  row = i;
  group = g;
  place = refl;
  narrow = l;
  order = inr (refl, inl (omega arith, omega arith));
}

pub MayStay-old :
    (start g i block : ℕ)
    → block % 256 ≢ block_of_row start g i % 256
    → MayStay start g i block
    → MayStay start g (i + 1) block
MayStay-old start g i block other s =
    let place = s.place in
    record {
      row = s.row;
      group = s.group;
      place = place;
      narrow = s.narrow;
      order = elim s.order [
        | inl before ↦ inl before
        | inr (same, stays) ↦ inr (
          same,
          elim stays [
            | inl (lo, hi) ↦ inl (omega arith, omega arith)
            | inr (far, inside) ↦ inr (omega arith, inside)
          ],
        )
      ];
    }

-- The next column, of this group or the next.
pub MayStay-turn :
    (start g g' block : ℕ)
    → (g' ≡ g) ⊎ (g' ≡ g + 1)
    → MayStay start g 64 block
    → MayStay start g' 0 block
MayStay-turn start g g' block next s = record {
  row = s.row;
  group = s.group;
  place = s.place;
  narrow = s.narrow;
  order = elim s.order [
    | inl before ↦ inl (elim next [ inl e ↦ omega arith | inr e ↦ omega arith ])
    | inr (same, stays) ↦ elim next [
      | inr e ↦ inl (omega arith)
      | inl e ↦ elim stays [
        | inl (lo, hi) ↦ inr (omega arith, inr (omega arith, lo))
        | inr (far, inside) ↦ absurd (omega arith)
      ]
    ]
  ];
}
