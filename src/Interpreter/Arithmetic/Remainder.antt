-- ===== src/Interpreter/Arithmetic/Remainder.antt =====
-- The remainder of two ints.
use luapp.Prelude.{
  ℕ, zero, suc, ◌+◌, ◌-◌, ◌*◌, ◌/◌, ◌^◌, ◌<◌, nat_eq, ok, err, undefined, ◌≡◌, refl, arith, ◌⊎◌,
  inl, inr, Bool-cases,
}
use luapp.Prelude.Int.{ℤ, pos, negsuc, pos_part, neg_part}
use luapp.Types.Platform.{Platform}
use luapp.Types.Value.{int, double}
use luapp.Types.Coerce.{as_double_weak}
use luapp.Interpreter.Operators.{modulo}
use luapp.Interpreter.Arithmetic.{int_mod, int_or_double, mul_div_mod}

-- The distance of an int from 0.
abbrev pub abs : ℤ → ℕ
abs (pos n) = n
abs (negsuc n) = suc n

-- `r` is what is left of `a` after taking away a multiple of `b`, nearer to 0 than `b`, and on the
-- same side of 0 as `a` or 0.
pub record IsRemainder (a b r : ℤ) : Type 0 where
  pub quotient : ℕ
  pub split : abs a ≡ quotient * abs b + abs r
  pub small : abs r < abs b
  pub sign : (pos_part a ≡ 0 → pos_part r ≡ 0) × (neg_part a ≡ 0 → neg_part r ≡ 0)

int_mod-IsRemainder : (a b r : ℤ) → int_mod a b ≡ ok r → IsRemainder a b r
unfolding int_mod
int_mod-IsRemainder (pos m) (pos zero) r e = cc
int_mod-IsRemainder (negsuc m) (pos zero) r e = cc
int_mod-IsRemainder (pos m) (pos (suc n)) r e = record {
  quotient = m / suc n;
  split = ground arith;
  small = ground arith;
  sign = ground arith;
}
int_mod-IsRemainder (pos m) (negsuc n) r e = record {
  quotient = m / suc n;
  split = ground arith;
  small = ground arith;
  sign = ground arith;
}
int_mod-IsRemainder (negsuc m) (pos (suc n)) r e = record {
  quotient = suc m / suc n;
  split = ground arith;
  small = ground arith;
  sign = ground arith;
}
int_mod-IsRemainder (negsuc m) (negsuc zero) r e = record {
  quotient = suc m;
  split = ground arith;
  small = ground arith;
  sign = ground arith;
}
int_mod-IsRemainder (negsuc m) (negsuc (suc n)) r e = record {
  quotient = suc m / suc (suc n);
  split = ground arith;
  small = ground arith;
  sign = ground arith;
}

int_mod-undefined :
    (a b : ℤ)
    → ((r : ℤ) × (int_mod a b ≡ ok r))
      ⊎ (int_mod a b ≡ err undefined) × ((b ≡ pos 0) ⊎ (a ≡ negsuc (2 ^ 31 - 1)) × (b ≡ negsuc 0))
unfolding int_mod
int_mod-undefined (pos m) (pos zero) = inr (refl, inl refl)
int_mod-undefined (negsuc m) (pos zero) = inr (refl, inl refl)
int_mod-undefined (pos m) (pos (suc n)) = inl (_, refl)
int_mod-undefined (pos m) (negsuc n) = inl (_, refl)
int_mod-undefined (negsuc m) (pos (suc n)) = inl (_, refl)
int_mod-undefined (negsuc m) (negsuc zero) = elim (Bool-cases (nat_eq m (2 ^ 31 - 1))) [
  | inl e ↦ inr (rw e, inr (ground arith, refl))
  | inr e ↦ inl (pos 0, rw e)
]
int_mod-undefined (negsuc m) (negsuc (suc n)) = inl (_, refl)

-- The remainder of two ints, or what makes it undefined.
pub int_mod_lem :
    (a b : ℤ)
    → ((r : ℤ) × (int_mod a b ≡ ok r) × IsRemainder a b r)
      ⊎ (int_mod a b ≡ err undefined) × ((b ≡ pos 0) ⊎ (a ≡ negsuc (2 ^ 31 - 1)) × (b ≡ negsuc 0))
int_mod_lem a b = elim (int_mod-undefined a b) [
  | inl (r, e) ↦ inl (r, e, int_mod-IsRemainder a b r e)
  | inr h ↦ inr h
]

module _ (P : Platform) where
  open P use {Double, of_int}

  -- The operator `%`, on two ints a and b: it gives the int that is left of a after a division by b
  -- rounded towards 0, or is undefined, and then b is 0, or a is the least int and b is -1. Where one
  -- of the operands is a double, it gives the remainder of the doubles, the left one by the right.
  pub modulo_lem :
      ((a b : ℤ)
        → ((r : ℤ) × (mul_div_mod P modulo (int a) (int b) ≡ ok (int r)) × IsRemainder a b r)
          ⊎ (mul_div_mod P modulo (int a) (int b) ≡ err undefined)
            × ((b ≡ pos 0) ⊎ (a ≡ negsuc (2 ^ 31 - 1)) × (b ≡ negsuc 0)))
      × ((x : Double) (b : ℤ)
          → mul_div_mod P modulo (double x) (int b) ≡ ok (double (P.remainder x (of_int b))))
      × ((a : ℤ) (y : Double)
          → mul_div_mod P modulo (int a) (double y) ≡ ok (double (P.remainder (of_int a) y)))
      × ((x y : Double)
          → mul_div_mod P modulo (double x) (double y) ≡ ok (double (P.remainder x y)))
  unfolding mul_div_mod as_double_weak int_or_double
  modulo_lem = (
    λ a b. elim (int_mod_lem a b) [
      | inl (r, e, h) ↦ inl (r, rw e refl, h)
      | inr (e, h) ↦ inr (rw e refl, h)
    ],
    λ x b. refl,
    λ a y. refl,
    λ x y. refl,
  )
