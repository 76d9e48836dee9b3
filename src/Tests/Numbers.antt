-- ===== src/Tests/Numbers.antt =====
-- Examples for big integers and for the street.
use cs_261_basics_of_compute.Prelude.{◌≡◌, ◌≤◌, none, some, ◌==◌, if◌then◌else◌, arith}
use cs_261_basics_of_compute.Prelude.Int.{pos}
use cs_261_basics_of_compute.Bigint.Defs.{
  sign_negative, sign_positive, Bigint, Store, char_to_digit, digit_to_char,
}
use cs_261_basics_of_compute.Bigint.Digits.{char_to_digit-digit_to_char}
use cs_261_basics_of_compute.Traffic.{Histogram, Street}

-- 107 is 'k' and 75 is 'K'.
char_to_digit-digit_to_char_example :
    (char_to_digit (pos 107) ≡ 20)
    × (char_to_digit (pos 75) ≤ 35)
    × (digit_to_char (char_to_digit (pos 75)) ≡ 107)
unfolding char_to_digit digit_to_char
char_to_digit-digit_to_char_example =
    char_to_digit-digit_to_char 20 75 (omega arith) (λ e. omega (arith, e))

abbrev minus : Bigint
minus = record { sign = sign_negative; base = 10; first = none; last = none }

abbrev plus : Bigint
plus = record { sign = sign_positive; base = 16; first = none; last = none }

abbrev store : Store
store k = if k == 0 then some minus else if k == 1 then some plus else none

abbrev no_records : Histogram
no_records = record { waiting_histogram = λ k. 0; waiting_histogram_overflow = 0 }

abbrev street : Street
street = record { count = 0; enter = 0; histogram = no_records; occupancy_histogram = λ d k. 0 }
