-- ===== src/Bigint/Defs.antt =====
-- The operations of lab4/bigint.c. A pointer is `none` for NULL, or a place of the store. What `print_bigint`
-- and `bigint_to_str` would write, and the strings and files that are not read, are left out.
use cs_261_basics_of_compute.Prelude.{
  ℕ, suc, ◌+◌, ◌-◌, Bool, true, false, ◌&&◌, not, Option, none, some, leb, ◌==◌, if◌then◌else◌,
}
use cs_261_basics_of_compute.Prelude.Int.{ℤ, pos, negsuc, ◌-ℤ◌, ◌*ℤ◌}
use cs_261_basics_of_compute.Prelude.Run.{Run, ok, undefined, ◌>>=◌}

pub data Sign : Type 0 where
  sign_negative : Sign
  sign_zero : Sign
  sign_positive : Sign

-- The numbers of the `enum`.
unfoldable pub sign_value : Sign → ℤ
sign_value sign_negative = negsuc 0
sign_value sign_zero = pos 0
sign_value sign_positive = pos 1

-- `-b->sign`
unfoldable pub opposite : Sign → Sign
opposite sign_negative = sign_positive
opposite sign_zero = sign_zero
opposite sign_positive = sign_negative

abbrev pub Pointer : Type 0
Pointer = Option ℕ

pub record Bigint : Type 0 where
  pub sign : Sign
  pub base : ℕ
  pub first : Pointer
  pub last : Pointer

pub record Digit : Type 0 where
  pub value : ℕ
  pub next : Pointer
  pub prev : Pointer

-- The big integers that are allocated, by their place.
abbrev pub Store : Type 0
Store = ℕ → Option Bigint

-- A big integer that is there, or an access that C leaves undefined.
unfoldable pub present : Option Bigint → Run Bigint
present none = undefined
present (some b) = ok b

unfoldable pub load : Store → Pointer → Run Bigint
load s none = undefined
load s (some place) = present (s place)

unfoldable pub set : Store → (place : ℕ) → Bigint → Store
set s place b k = if k == place then some b else s k

-- `bigint->sign = sign`
unfoldable pub set_sign : Store → Pointer → Sign → Run Store
set_sign s none sign = undefined
set_sign s (some place) sign = do
  b ← load s (some place)
  ok (set s place (record b { sign = sign }))

unfoldable pub new_digit : (value : ℕ) (next prev : Pointer) → Pointer
new_digit value next prev = none

unfoldable pub new_bigint : Sign → (base digit_value : ℕ) → Pointer
new_bigint sign base digit_value = none

unfoldable pub cleanup_bigint : Pointer → Pointer
cleanup_bigint bigint = bigint

unfoldable pub uint_to_bigint : (value base : ℕ) → Pointer
uint_to_bigint value base = none

-- The result and the store after it.
unfoldable pub int_to_bigint : Store → (value : ℤ) (base : ℕ) → Run (Pointer × Store)
int_to_bigint s (pos value) base = ok (uint_to_bigint value base, s)
int_to_bigint s (negsuc n) base = do
  let bigint = uint_to_bigint (suc n) base
  s' ← set_sign s bigint sign_negative
  ok (bigint, s')

-- `(baseint_t) -1`, in eight bits.
abbrev pub invalid_digit : ℕ
invalid_digit = 255

-- `'0'`, `'9'`, `'A'`, `'Z'`, `'a'`, `'z'` and `'?'` are 48, 57, 65, 90, 97, 122 and 63.
unfoldable pub char_to_digit : ℤ → ℕ
char_to_digit (negsuc n) = invalid_digit
char_to_digit (pos c) =
    if leb 48 c && leb c 57
    then c - 48
    else if leb 65 c && leb c 90
    then c - 65 + 10
    else if leb 97 c && leb c 122
    then c - 97 + 10
    else invalid_digit

unfoldable pub digit_to_char : ℕ → ℕ
digit_to_char num = if leb num 9 then num + 48 else if leb num 35 then num + 97 - 10 else 63

unfoldable pub bigint_num_digits : Pointer → ℕ
bigint_num_digits bigint = 0

unfoldable pub bigint_divide_by_uint : (dividend : Pointer) (divisor : ℕ) → Pointer
bigint_divide_by_uint dividend divisor = none

unfoldable pub bigint_dup : (src : Pointer) → Pointer
bigint_dup src = none

unfoldable pub bigint_change_base : Store → (old : Pointer) (new_base : ℕ) → Run Pointer
bigint_change_base s old new_base = do
  b ← load s old
  ok (if new_base == b.base then bigint_dup old else none)

unfoldable pub bigint_mod_cmp : (a b : Pointer) → ℤ
bigint_mod_cmp a b = pos 0

unfoldable pub same_sign : Sign → Sign → Bool
same_sign sign_negative sign_negative = true
same_sign sign_zero sign_zero = true
same_sign sign_positive sign_positive = true
same_sign _ _ = false

unfoldable pub bigint_cmp : Store → (a b : Pointer) → Run ℤ
bigint_cmp s a b = do
  x ← load s a
  y ← load s b
  ok (
      if not (same_sign x.sign y.sign)
      then sign_value x.sign -ℤ sign_value y.sign
      else if same_sign x.sign sign_zero
      then pos 0
      else sign_value x.sign *ℤ bigint_mod_cmp a b)

unfoldable pub bigint_add : (a b : Pointer) → Pointer
bigint_add a b = bigint_dup a

unfoldable pub negate_sign : Store → Pointer → Run Store
negate_sign s b = do y ← load s b; set_sign s b (opposite y.sign)

unfoldable pub bigint_sub : Store → (a b : Pointer) → Run (Pointer × Store)
bigint_sub s a b = do
  s' ← negate_sign s b
  let result = bigint_add a b
  s'' ← negate_sign s' b
  ok (result, s'')
