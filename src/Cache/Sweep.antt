-- ===== src/Cache/Sweep.antt =====
-- The cache of lab6/cache-test.c in a sum by columns: a row that comes next is a miss, and one that has
-- just been read a hit.
use cs_261_basics_of_compute.Prelude.{
  ℕ, ◌+◌, ◌*◌, ◌/◌, ◌%◌, ◌^◌, ◌≤◌, ◌<◌, ◌≡◌, ◌⊎◌, true, false, arith, Bool-cases, inl, inr, ◌∙◌,
}
use cs_261_basics_of_compute.Cache.Defs.{Cache, cache_read}
use cs_261_basics_of_compute.Cache.Direct.{
  Direct, has, has_here, has_elsewhere, has_before, read_hit, read_miss, cache_read-access_count,
  cache_read-Direct,
}
use cs_261_basics_of_compute.Cache.Stays.{
  block_of_row, MayStay, MayStay-next, MayStay-read, MayStay-old, MayStay-turn,
}

module _ (mem : ℕ → ℕ) (a : ℕ) (aligned : a % 64 ≡ 0) (below : a + 8 * 4096 ≤ 2 ^ 31) where
  -- After `accesses` reads, before row `i` of a column in the group `g`.
  pub record Sweep (g i accesses misses : ℕ) (c : Cache) : Type 0 where
    pub direct : Direct mem c
    pub accessed : c.access_count ≡ accesses
    pub missed : c.miss_count ≡ misses
    pub stays : (block : ℕ) → has c block ≡ true → MayStay (a / 64) g i block

  module _ (c : Cache) (g i n m x : ℕ) (group : g < 8) (short : n < 4096) (few : m < 4096)
      (high : x < 2 ^ 31) (even : x % 8 ≡ 0) (s : Sweep g i n m c) where
    -- A row that has not been read.
    pub column_miss :
        x / 64 ≡ block_of_row (a / 64) g i → Sweep g (i + 1) (n + 1) (m + 1) (cache_read mem c x).1
    column_miss place =
        let none : has c (x / 64) ≡ false = elim (Bool-cases (has c (x / 64))) [
          | inr e ↦ e
          | inl e ↦ absurd (MayStay-next (a / 64) g i group (rw place at (s.stays (x / 64) e)))
        ] in
        record {
          direct = cache_read-Direct mem c s.direct x high even;
          accessed = cache_read-access_count mem c s.direct x high ∙ omega (arith, s.accessed);
          missed = read_miss mem c s.direct x high none ∙ omega (arith, s.missed);
          stays = λ block e. elim (has_before mem c s.direct x high block e) [
            | inl same ↦ rw (same ∙ place) (MayStay-read (a / 64) g i group)
            | inr (other, old) ↦
                MayStay-old (a / 64) g i block (rw place at other) (s.stays block old)
          ];
        }

    -- A row that has just been read.
    pub column_hit : has c (x / 64) ≡ true → Sweep g i (n + 1) m (cache_read mem c x).1
    column_hit there = record {
      direct = cache_read-Direct mem c s.direct x high even;
      accessed = cache_read-access_count mem c s.direct x high ∙ omega (arith, s.accessed);
      missed = read_hit mem c s.direct x high there ∙ s.missed;
      stays = λ block e. elim (has_before mem c s.direct x high block e) [
        | inl same ↦ rw same (s.stays (x / 64) there)
        | inr (_, old) ↦ s.stays block old
      ];
    }

  pub Sweep-turn :
      (c : Cache) (g g' n m : ℕ) → (g' ≡ g) ⊎ (g' ≡ g + 1) → Sweep g 64 n m c → Sweep g' 0 n m c
  Sweep-turn c g g' n m next s = record {
    direct = s.direct;
    accessed = s.accessed;
    missed = s.missed;
    stays = λ block e. MayStay-turn (a / 64) g g' block next (s.stays block e);
  }

  -- What a read of an address needs.
  abbrev pub IsLong : ℕ → Type 0
  IsLong x = (x < 2 ^ 31) × (x % 8 ≡ 0)

  -- Two rows that have not been read, and the same again: two misses, and two hits.
  pub four_reads :
      (c : Cache) (g i n m x1 x2 x3 x4 : ℕ)
      → g < 8
      → n + 4 ≤ 4096
      → m + 4 ≤ 4096
      → IsLong x1
      → IsLong x2
      → IsLong x3
      → IsLong x4
      → x1 / 64 ≡ block_of_row (a / 64) g i
      → x2 / 64 ≡ block_of_row (a / 64) g (i + 1)
      → x3 / 64 ≡ x1 / 64
      → x4 / 64 ≡ x2 / 64
      → Sweep g i n m c
      → let c3 = (cache_read mem (cache_read mem (cache_read mem c x1).1 x2).1 x3).1 in
        Sweep g (i + 1 + 1) (n + 1 + 1 + 1 + 1) (m + 1 + 1) (cache_read mem c3 x4).1
  four_reads c g i n m x1 x2 x3 x4 group short few (h1, e1) (h2, e2) (h3, e3) (h4, e4) p1 p2 p3 p4
        w =
      let c1 = (cache_read mem c x1).1 in
      let c2 = (cache_read mem c1 x2).1 in
      let c3 = (cache_read mem c2 x3).1 in
      let w1 = column_miss c g i n m x1 group (omega arith) (omega arith) h1 e1 w p1 in
      let w2 =
        column_miss c1 g (i + 1) (n + 1) (m + 1) x2 group (omega arith) (omega arith) h2 e2 w1 p2 in
      let first : has c2 (x3 / 64) ≡ true = rw p3 (
        has_elsewhere mem c1 w1.direct x2 h2 (x1 / 64) (omega arith)
        ∙ has_here mem c w.direct x1 h1) in
      let w3 =
        column_hit c2 g (i + 1 + 1) (n + 1 + 1) (m + 1 + 1) x3 group (omega arith) (omega arith) h3
          e3 w2 first in
      let second : has c3 (x4 / 64) ≡ true = rw p4 (
        has_elsewhere mem c2 w2.direct x3 h3 (x2 / 64) (omega arith)
        ∙ has_here mem c1 w1.direct x2 h2) in
      column_hit c3 g (i + 1 + 1) (n + 1 + 1 + 1) (m + 1 + 1) x4 group (omega arith) (omega arith)
        h4 e4 w3 second
