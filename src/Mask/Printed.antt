-- ===== src/Mask/Printed.antt =====
-- Reading back the numbers that lab6/timemask.c prints into the header of an image file.
use native.Mathlib.Nat.{pow-suc, pow-zero}
use cs_261_basics_of_compute.Prelude.{
  ℕ, zero, suc, ◌+◌, ◌-◌, ◌*◌, ◌/◌, ◌%◌, ◌^◌, ◌≤◌, ◌<◌, ◌≡◌, refl, true, false, List, [], ◌∷◌, ◌++◌,
  length, ltb, ◌==◌, Bool-cases, inl, inr, arith, ap, ◌∙◌,
}
use cs_261_basics_of_compute.Prelude.Int.{ℤ, pos}
use cs_261_basics_of_compute.Prelude.Run.{Run, ok}
use cs_261_basics_of_compute.Mask.Pgm.{
  File, is_space, is_digit, skip_spaces, take_word, digits_from, scan_unsigned, signed, scan_int,
  number_of, read_pbm_number, decimal_onto, decimal,
}

abbrev AllDigits : List ℕ → Type 0
AllDigits [] = Unit
AllDigits (c ∷ cs) = (is_digit c ≡ true) × AllDigits cs

-- What is put onto the digits `acc`: digits, at most `m` of them, that are read as `n`.
record Onto (m n : ℕ) (acc ds : List ℕ) : Type 0 where
  digits : AllDigits ds
  value : digits_from 0 ds ≡ digits_from n acc
  more : length acc < length ds
  few : length ds ≤ m + length acc

one_digit : (m n : ℕ) (acc : List ℕ) → n < 10 → AllDigits acc → Onto (suc m) n acc ((48 + n) ∷ acc)
unfolding digits_from
one_digit m n acc small all =
    let digit : is_digit (48 + n) ≡ true = ground arith in
    let value : 0 * 10 + (48 + n - 48) ≡ n = omega arith in
    record {
      digits = (digit, all);
      value = rw (digit, value) refl;
      more = omega arith;
      few = omega arith;
    }

next_digit :
    (m n : ℕ) (acc ds : List ℕ) → Onto m (n / 10) ((48 + n % 10) ∷ acc) ds → Onto (suc m) n acc ds
unfolding digits_from
next_digit m n acc ds o =
    let digit : is_digit (48 + n % 10) ≡ true = ground arith in
    let value : n / 10 * 10 + (48 + n % 10 - 48) ≡ n = omega arith in
    record {
      digits = o.digits;
      value = o.value ∙ rw (digit, value) refl;
      more = omega (arith, o.more);
      few = omega (arith, o.few);
    }

decimal_onto-Onto :
    (k m n : ℕ) (acc : List ℕ)
    → m < k
    → n < 10 ^ suc m
    → AllDigits acc
    → Onto (suc m) n acc (decimal_onto k n acc)
unfolding decimal_onto
decimal_onto-Onto zero m n acc lt small all = absurd (omega arith)
decimal_onto-Onto (suc k) zero n acc lt small all =
    let few : n < 10 = omega (arith, pow-suc 10 0, pow-zero 10) in
    let one : ltb n 10 ≡ true = ground arith in rw one (one_digit 0 n acc few all)
decimal_onto-Onto (suc k) (suc m) n acc lt small all = elim (Bool-cases (ltb n 10)) [
  | inl one ↦ rw one (one_digit (suc m) n acc (ground arith) all)
  | inr larger ↦
      let digit : is_digit (48 + n % 10) ≡ true = ground arith in
      rw larger (
        next_digit (suc m) n acc _ (
          decimal_onto-Onto k m (n / 10) ((48 + n % 10) ∷ acc) (omega arith)
            (omega (arith, pow-suc 10 (suc m))) (digit, all)))
]

take_word-digits :
    (m : ℕ) (ds : List ℕ) (c : ℕ) (rest : File)
    → AllDigits ds
    → length ds ≤ m
    → is_space c ≡ true
    → take_word m (ds ++ c ∷ rest) ≡ (ds, c ∷ rest)
unfolding take_word
take_word-digits zero [] c rest all few space = refl
take_word-digits zero (d ∷ ds) c rest all few space = absurd (omega arith)
take_word-digits (suc m) [] c rest all few space = rw space refl
take_word-digits (suc m) (d ∷ ds) c rest (digit, all) few space =
    let ink : is_space d ≡ false = ground arith in
    rw (take_word-digits m ds c rest all (omega arith) space, ink) refl

digits_from_nil : (n : ℕ) → digits_from n [] ≡ n
unfolding digits_from
digits_from_nil n = refl

-- What a number in front of a space is read as; `rest` is what is left.
number_of-decimal :
    (ds : List ℕ) (rest : File) (next : File → Run (ℤ × File))
    → AllDigits ds
    → 0 < length ds
    → number_of next (ds, rest) ≡ ok (pos (digits_from 0 ds), rest)
unfolding number_of scan_int scan_unsigned signed
number_of-decimal [] rest next all some_digit = absurd (omega arith)
number_of-decimal (d ∷ ds) rest next (digit, all) some_digit =
    let no_comment : (d == 35) ≡ false = ground arith in
    let no_nul : (d == 0) ≡ false = ground arith in
    let no_minus : (d == 45) ≡ false = ground arith in
    let no_plus : (d == 43) ≡ false = ground arith in
    rw (no_comment, no_nul, no_minus, no_plus, digit) refl

skip_spaces-digits :
    (ds : List ℕ) (rest : File)
    → AllDigits ds
    → 0 < length ds
    → skip_spaces (ds ++ rest) ≡ ds ++ rest
unfolding skip_spaces
skip_spaces-digits [] rest all some_digit = absurd (omega arith)
skip_spaces-digits (d ∷ ds) rest (digit, all) some_digit =
    let ink : is_space d ≡ false = ground arith in rw ink refl

-- A printed number of at most nine digits is read back, with or without a space in front.
pub read_pbm_number-decimal :
    (fuel n c : ℕ) (rest : File)
    → n < 10 ^ 9
    → is_space c ≡ true
    → (read_pbm_number (suc fuel) (decimal n ++ c ∷ rest) ≡ ok (pos n, c ∷ rest))
      × (read_pbm_number (suc fuel) (32 ∷ (decimal n ++ c ∷ rest)) ≡ ok (pos n, c ∷ rest))
unfolding read_pbm_number decimal skip_spaces
read_pbm_number-decimal fuel n c rest small space =
    let o = decimal_onto-Onto 10 8 n [] (omega arith) small tt in
    let ds = decimal_onto 10 n [] in
    let value : digits_from 0 ds ≡ n = o.value ∙ digits_from_nil n in
    let word : take_word 9 (skip_spaces (ds ++ c ∷ rest)) ≡ (ds, c ∷ rest) =
      ap (take_word 9) (skip_spaces-digits ds (c ∷ rest) o.digits o.more)
      ∙ take_word-digits 9 ds c rest o.digits o.few space in
    let whole : number_of (read_pbm_number fuel) (take_word 9 (skip_spaces (ds ++ c ∷ rest)))
        ≡ ok (pos n, c ∷ rest) =
      ap (number_of (read_pbm_number fuel)) word
      ∙ number_of-decimal ds (c ∷ rest) (read_pbm_number fuel) o.digits o.more
      ∙ ap (λ v. ok (pos v, c ∷ rest)) value in
    (whole, whole)
