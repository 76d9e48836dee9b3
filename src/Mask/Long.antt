-- ===== src/Mask/Long.antt =====
-- `long` as 64-bit patterns.
use cs_261_basics_of_compute.Prelude.{
  ℕ, ◌+◌, ◌-◌, ◌*◌, ◌/◌, ◌%◌, ◌^◌, Bool, not, ltb, if◌then◌else◌,
}

abbrev pub modulus : ℕ
modulus = 2 ^ 64

abbrev pub add64 : ℕ → ℕ → ℕ
add64 a b = (a + b) % modulus

abbrev pub mul64 : ℕ → ℕ → ℕ
mul64 a b = a * b % modulus

abbrev is_negative : ℕ → Bool
is_negative w = not (ltb w (2 ^ 63))

abbrev magnitude : ℕ → ℕ
magnitude w = if is_negative w then modulus - w else w

-- `a / b`, rounded towards zero. No weight is zero, so no division by zero arises.
unfoldable pub div64 : ℕ → ℕ → ℕ
div64 a b =
    let q = magnitude a / magnitude b in
    if (if is_negative a then is_negative b else not (is_negative b))
    then q
    else (modulus - q) % modulus
