-- ===== src/Bigint/Order.antt =====
-- Comparison and subtraction in lab4/bigint.c.
use cs_261_basics_of_compute.Prelude.{
  not, ℕ, ◌≡◌, refl, none, some, ◌==◌, if◌then◌else◌, fun_ext, Bool-cases, inl, inr, arith, ap, sym,
}
use cs_261_basics_of_compute.Prelude.Int.{pos, ◌-ℤ◌, ◌*ℤ◌}
use cs_261_basics_of_compute.Prelude.Run.{ok}
use cs_261_basics_of_compute.Bigint.Defs.{
  Sign, sign_negative, sign_zero, sign_positive, sign_value, opposite, Pointer, Bigint, Store,
  present, load, set, set_sign, same_sign, bigint_mod_cmp, bigint_cmp, bigint_dup, bigint_add,
  negate_sign, bigint_sub,
}

by_signs :
    (a b : Pointer) (x y : Sign)
    → (if not (same_sign x y)
        then sign_value x -ℤ sign_value y
        else if same_sign x sign_zero
        then pos 0
        else sign_value x *ℤ bigint_mod_cmp a b)
      ≡ sign_value x -ℤ sign_value y
unfolding same_sign sign_value bigint_mod_cmp ◌-ℤ◌ ◌*ℤ◌
by_signs a b sign_negative sign_negative = refl
by_signs a b sign_negative sign_zero = refl
by_signs a b sign_negative sign_positive = refl
by_signs a b sign_zero sign_negative = refl
by_signs a b sign_zero sign_zero = refl
by_signs a b sign_zero sign_positive = refl
by_signs a b sign_positive sign_negative = refl
by_signs a b sign_positive sign_zero = refl
by_signs a b sign_positive sign_positive = refl

-- Two big integers are compared by their signs alone: the result is the difference of the two signs.
pub bigint_cmp-sign_value :
    (s : Store) (a b : Pointer) (x y : Bigint)
    → load s a ≡ ok x
    → load s b ≡ ok y
    → bigint_cmp s a b ≡ ok (sign_value x.sign -ℤ sign_value y.sign)
unfolding bigint_cmp
bigint_cmp-sign_value s a b x y e e' = rw (e, e') (ap ok (by_signs a b x.sign y.sign))

opposite-opposite : (x : Sign) → opposite (opposite x) ≡ x
unfolding opposite
opposite-opposite sign_negative = refl
opposite-opposite sign_zero = refl
opposite-opposite sign_positive = refl

negate_sign-set :
    (s : Store) (place : ℕ) (y : Bigint)
    → s place ≡ some y
    → negate_sign s (some place) ≡ ok (set s place (record y { sign = opposite y.sign }))
unfolding negate_sign set_sign load present
negate_sign-set s place y there = rw there refl

set_self : (s : Store) (place : ℕ) (y : Bigint) → set s place y place ≡ some y
unfolding set
set_self s place y = ground arith

set-set :
    (s : Store) (place : ℕ) (x y : Bigint) → s place ≡ some y → set (set s place x) place y ≡ s
unfolding set
set-set s place x y there = fun_ext (λ k. elim (Bool-cases (k == place)) [
  | inl same ↦ let e : k ≡ place = ground arith in rw (same, e) (sym there)
  | inr other ↦ rw other refl
])

-- The big integer that two changes of the sign come to.
twice : (y : Bigint) → (record y { sign = opposite (opposite y.sign) }) ≡ y
twice y = ap (λ sign. record y { sign = sign }) (opposite-opposite y.sign)

-- Subtraction leaves every big integer as it was, the subtrahend included, also when the two numbers are
-- the same one; its result is NULL.
pub bigint_sub_same :
    (s : Store) (a : Pointer) (place : ℕ) (y : Bigint)
    → s place ≡ some y
    → bigint_sub s a (some place) ≡ ok (none, s)
unfolding bigint_sub bigint_add bigint_dup
bigint_sub_same s a place y there =
    let x : Bigint = record y { sign = opposite y.sign } in
    rw
      (
        negate_sign-set s place y there,
        negate_sign-set (set s place x) place x (set_self s place x),
        twice y,
        set-set s place x y there,
      )
      refl
