-- ===== src/Bigint/Digits.antt =====
-- Digits and their characters in lab4/bigint.c.
use cs_261_basics_of_compute.Prelude.{ℕ, ◌+◌, ◌≡◌, ◌≢◌, ◌≤◌, arith, leb, ◌&&◌, if◌then◌else◌}
use cs_261_basics_of_compute.Prelude.Int.{pos}
use cs_261_basics_of_compute.Bigint.Defs.{invalid_digit, char_to_digit, digit_to_char}

-- A capital letter as a small one.
abbrev lower : ℕ → ℕ
lower c = if leb 65 c && leb c 90 then c + 32 else c

lower-digit_to_char :
    (c : ℕ)
    → char_to_digit (pos c) ≢ invalid_digit
    → (char_to_digit (pos c) ≤ 35) × (digit_to_char (char_to_digit (pos c)) ≡ lower c)
unfolding char_to_digit digit_to_char
lower-digit_to_char c valid = ground arith

-- Each digit up to 35 has a character that is read as that digit, and a character that is read as a
-- digit is the one of that digit, but for its case.
pub char_to_digit-digit_to_char :
    (n c : ℕ)
    → n ≤ 35
    → char_to_digit (pos c) ≢ invalid_digit
    → (char_to_digit (pos (digit_to_char n)) ≡ n)
      × (char_to_digit (pos c) ≤ 35)
      × (digit_to_char (char_to_digit (pos c)) ≡ lower c)
unfolding char_to_digit digit_to_char
char_to_digit-digit_to_char n c small valid =
    let there : char_to_digit (pos (digit_to_char n)) ≡ n = ground arith in
    let back = lower-digit_to_char c valid in (there, back.0, back.1)
