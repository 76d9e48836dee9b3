-- ===== src/Mask/Kernel.antt =====
-- The filter as a weighted average: a pixel counts four times, its neighbours beside, above and below
-- it twice, and those at its corners once, as far as they lie in the image.
use cs_261_basics_of_compute.Prelude.{
  ℕ, ◌+◌, ◌-◌, ◌*◌, ◌%◌, ◌≤◌, ◌<◌, ◌≡◌, refl, Bool, true, ◌&&◌, arith, if◌then◌else◌, ◌∙◌,
}
use cs_261_basics_of_compute.Mask.Long.{modulus, div64}
use cs_261_basics_of_compute.Mask.Defs.{Image}
use cs_261_basics_of_compute.Mask.Sweep.{in_rect, between}
use cs_261_basics_of_compute.Mask.Pass.{weigh, begin, nine_passes}

-- The neighbour at (r + dr - 1, c + dc - 1), if it lies in the image.
abbrev pub inside : (rows cols r c dr dc : ℕ) → Bool
inside rows cols r c dr dc = between 1 (rows + 1) (r + dr) && between 1 (cols + 1) (c + dc)

abbrev pub tap : Image → (rows cols r c k dr dc : ℕ) → ℕ
tap old rows cols r c k dr dc =
    if inside rows cols r c dr dc then k * old (r + dr - 1) (c + dc - 1) else 0

abbrev pub tap_weight : (rows cols r c k dr dc : ℕ) → ℕ
tap_weight rows cols r c k dr dc = if inside rows cols r c dr dc then k else 0

unfoldable pub weighted_sum : Image → (rows cols r c : ℕ) → ℕ
weighted_sum old rows cols r c =
    let t = tap old rows cols r c in
    t 1 0 0 + t 2 0 1 + t 1 0 2 + t 2 1 0 + t 4 1 1 + t 2 1 2 + t 1 2 0 + t 2 2 1 + t 1 2 2

unfoldable pub total_weight : (rows cols r c : ℕ) → ℕ
total_weight rows cols r c =
    let t = tap_weight rows cols r c in
    t 1 0 0 + t 2 0 1 + t 1 0 2 + t 2 1 0 + t 4 1 1 + t 2 1 2 + t 1 2 0 + t 2 2 1 + t 1 2 2

-- The new pixel.
unfoldable pub filtered : Image → (rows cols r c : ℕ) → ℕ
filtered old rows cols r c =
    div64 (weighted_sum old rows cols r c % modulus) (total_weight rows cols r c)

-- The weight of a pixel of the image is between 4 and 16, so the division is defined.
pub total_weight_bounds :
    (rows cols r c : ℕ)
    → r < rows
    → c < cols
    → (4 ≤ total_weight rows cols r c) × (total_weight rows cols r c ≤ 16)
unfolding total_weight
total_weight_bounds rows cols r c p q = ground arith

-- One addition, in plain numbers.
weigh_sum :
    (test : Bool) (k x a b : ℕ) (p : ℕ × ℕ)
    → p.0 ≡ a % modulus
    → p.1 ≡ b
    → b + k < modulus
    → ((weigh test k x p).0 ≡ (a + (if test then k * x else 0)) % modulus)
      × ((weigh test k x p).1 ≡ b + (if test then k else 0))
unfolding weigh
weigh_sum test k x a b p e f small = ground arith

-- The place of a pixel in the sums: a neighbour's test and coordinates, as the passes have them.
weigh-tap :
    (old : Image) (rows cols r c k dr dc : ℕ) (test : Bool) (x a b : ℕ) (p : ℕ × ℕ)
    → test ≡ inside rows cols r c dr dc
    → (test ≡ true → x ≡ old (r + dr - 1) (c + dc - 1))
    → (p.0 ≡ a % modulus) × (p.1 ≡ b)
    → b + k < modulus
    → ((weigh test k x p).0 ≡ (a + tap old rows cols r c k dr dc) % modulus)
      × ((weigh test k x p).1 ≡ b + tap_weight rows cols r c k dr dc)
weigh-tap old rows cols r c k dr dc test x a b p e f h small =
    ground (arith, weigh_sum test k x a b p h.0 h.1 small)

tap_weight_le : (rows cols r c k dr dc : ℕ) → tap_weight rows cols r c k dr dc ≤ k
tap_weight_le rows cols r c k dr dc = ground arith

module _ (old : Image) (rows cols r c : ℕ) (row_in : r < rows) (col_in : c < cols) where
  begin-tap :
      (p0 : ℕ × ℕ)
      → ((begin (in_rect 0 rows 0 cols r c) (old r c) p0).0 ≡ tap old rows cols r c 4 1 1 % modulus)
        × ((begin (in_rect 0 rows 0 cols r c) (old r c) p0).1 ≡ 4)
  unfolding begin
  begin-tap p0 =
      let e1 : r + 1 - 1 ≡ r = omega arith in
      let e2 : c + 1 - 1 ≡ c = omega arith in rw (e1, e2) (ground arith)

  own_weight : tap_weight rows cols r c 4 1 1 ≡ 4
  own_weight = ground arith

  tap_at :
      (k dr dc row col a b : ℕ) (test : Bool) (p : ℕ × ℕ)
      → test ≡ inside rows cols r c dr dc
      → (test ≡ true → (row ≡ r + dr - 1) × (col ≡ c + dc - 1))
      → (p.0 ≡ a % modulus) × (p.1 ≡ b)
      → b + k < modulus
      → ((weigh test k (old row col) p).0 ≡ (a + tap old rows cols r c k dr dc) % modulus)
        × ((weigh test k (old row col) p).1 ≡ b + tap_weight rows cols r c k dr dc)
  tap_at k dr dc row col a b test p e f h small =
      weigh-tap old rows cols r c k dr dc test (old row col) a b p e
        (λ t. let g = f t in rw (g.0, g.1) refl) h small

  -- The passes reach the weighted sum, with its weight.
  pub nine_passes-weighted_sum :
      (p0 : ℕ × ℕ)
      → ((nine_passes old rows cols r c p0).0 ≡ weighted_sum old rows cols r c % modulus)
        × ((nine_passes old rows cols r c p0).1 ≡ total_weight rows cols r c)
  unfolding nine_passes weighted_sum total_weight
  nine_passes-weighted_sum p0 =
      let le = tap_weight_le rows cols r c in
      let h1 = begin-tap p0 in
      let h2 =
        tap_at 1 0 0 (r - 1) (c - 1) _ _ (in_rect 1 rows 1 cols r c) _ (ground arith)
          (λ t. (omega arith, omega arith)) h1 (omega arith) in
      let h3 =
        tap_at 2 0 1 (r - 1) c _ _ (in_rect 1 rows 0 cols r c) _ (ground arith)
          (λ t. (omega arith, omega arith)) h2 (omega (arith, le 1 0 0)) in
      let h4 =
        tap_at 1 0 2 (r - 1) (c + 1) _ _ (in_rect 1 rows 0 (cols - 1) r c) _ (ground arith)
          (λ t. (omega arith, omega arith)) h3 (omega (arith, le 1 0 0, le 2 0 1)) in
      let h5 =
        tap_at 2 1 0 r (c - 1) _ _ (in_rect 0 rows 1 cols r c) _ (ground arith)
          (λ t. (omega arith, omega arith)) h4 (omega (arith, le 1 0 0, le 2 0 1, le 1 0 2)) in
      let h6 =
        tap_at 2 1 2 r (c + 1) _ _ (in_rect 0 rows 0 (cols - 1) r c) _ (ground arith)
          (λ t. (omega arith, omega arith)) h5
          (omega (arith, le 1 0 0, le 2 0 1, le 1 0 2, le 2 1 0)) in
      let h7 =
        tap_at 1 2 0 (r + 1) (c - 1) _ _ (in_rect 0 (rows - 1) 1 cols r c) _ (ground arith)
          (λ t. (omega arith, omega arith)) h6
          (omega (arith, le 1 0 0, le 2 0 1, le 1 0 2, le 2 1 0, le 2 1 2)) in
      let h8 =
        tap_at 2 2 1 (r + 1) c _ _ (in_rect 0 (rows - 1) 0 cols r c) _ (ground arith)
          (λ t. (omega arith, omega arith)) h7
          (omega (arith, le 1 0 0, le 2 0 1, le 1 0 2, le 2 1 0, le 2 1 2, le 1 2 0)) in
      let h9 =
        tap_at 1 2 2 (r + 1) (c + 1) _ _ (in_rect 0 (rows - 1) 0 (cols - 1) r c) _ (ground arith)
          (λ t. (omega arith, omega arith)) h8
          (omega (arith, le 1 0 0, le 2 0 1, le 1 0 2, le 2 1 0, le 2 1 2, le 1 2 0, le 2 2 1)) in
      (h9.0 ∙ omega arith, h9.1 ∙ omega (arith, own_weight))
