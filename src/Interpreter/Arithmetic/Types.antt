-- ===== src/Interpreter/Arithmetic/Types.antt =====
-- The types of arithmetic results, and the operands that arithmetic refuses.
use luapp.Prelude.{
  Result, ok, err, undefined, ◌>>=◌, ◌≡◌, ◌≢◌, ◌⊎◌, inl, inr, refl, arith, Option, none, some,
  String,
}
use luapp.Prelude.Int.{ℤ, pos, negsuc}
use luapp.Types.Platform.{Platform, IsInt, as_int, deref_int}
use luapp.Types.Value.{
  LuaValue, boolean, int, double, string, nil, elipsis, function, userdata, table,
}
use luapp.Types.Coerce.{as_double_weak}
use luapp.Interpreter.Operators.{OperatorAddSub, OperatorMulDivMod}
use luapp.Interpreter.Arithmetic.Remainder.{int_mod_lem}
use luapp.Interpreter.Arithmetic.{int_or_double, mul_div_mod, add_sub, int_mod, make_int, power}

-- The result of an int operation: the exact value where it is an int, and else undefined.
pub as_int_lem :
    (i : ℤ) → (IsInt i × (as_int i ≡ ok i)) ⊎ ((IsInt i → ⊥) × (as_int i ≡ err undefined))
unfolding as_int
as_int_lem (pos n) = ground arith
as_int_lem (negsuc n) = ground arith

module _ (P : Platform) where
  open P use {Double, stod, div, pow}

  -- An int, a double, or a text that reads as a double.
  pub data IsNumber : LuaValue Double → Type 0 where
    an_int : (i : ℤ) → IsNumber (int i)
    a_double : (d : Double) → IsNumber (double d)
    a_text : {s : String} {d : Double} → stod s ≡ ok d → IsNumber (string s)

  abbrev pub BothInt : LuaValue Double → LuaValue Double → Type 0
  BothInt (int _) (int _) = Unit
  BothInt _ _ = ⊥

  -- Of two ints the result is an int, or undefined; of other numbers it is a double.
  pub data Typed (v w : LuaValue Double) (r : Result (LuaValue Double)) : Type 0 where
    ints : BothInt v w → (i : ℤ) → r ≡ ok (int i) → Typed v w r
    overflows : BothInt v w → r ≡ err undefined → Typed v w r
    doubles : (BothInt v w → ⊥) → (d : Double) → r ≡ ok (double d) → Typed v w r

  pub number-reads : {v : LuaValue Double} → IsNumber v → (d : Double) × (as_double_weak P v ≡ ok d)
  unfolding as_double_weak
  number-reads (an_int i) = (_, refl)
  number-reads (a_double d) = (d, refl)
  number-reads (a_text e) = (_, e)

  pub reads-IsNumber : (v : LuaValue Double) (d : Double) → as_double_weak P v ≡ ok d → IsNumber v
  unfolding as_double_weak
  reads-IsNumber (int i) d e = an_int i
  reads-IsNumber (double d) _ e = a_double d
  reads-IsNumber (string s) d e = a_text e
  reads-IsNumber (boolean b) d e = cc
  reads-IsNumber nil d e = cc
  reads-IsNumber (elipsis vs) d e = cc
  reads-IsNumber (function p) d e = cc
  reads-IsNumber (userdata p) d e = cc
  reads-IsNumber (table p) d e = cc

  make_int-Typed :
      {v w : LuaValue Double} (r : Result ℤ)
      → BothInt v w
      → (r ≡ err undefined) ⊎ ((i : ℤ) × (r ≡ ok i))
      → Typed v w (make_int P r)
  make_int-Typed r b (inl e) = overflows b (rw e)
  make_int-Typed r b (inr (i, e)) = ints b i (rw e)

  as_int_or : (i : ℤ) → (as_int i ≡ err undefined) ⊎ ((j : ℤ) × (as_int i ≡ ok j))
  as_int_or i = elim (as_int_lem i) [ inl (_, e) ↦ inr (i, e) | inr (_, e) ↦ inl e ]

  -- Of two numbers, not both ints, the operation on doubles is taken.
  on_doubles :
      {v w : LuaValue Double}
      → IsNumber v
      → IsNumber w
      → (BothInt v w → ⊥)
      → (f : Double → Double → Double)
      → Typed v w (as_double_weak P v >>= λ a. as_double_weak P w >>= λ b. ok (double (f a b)))
  on_doubles h k nb f =
      let (x, ex) = number-reads h in
      let (y, ey) = number-reads k in doubles nb (f x y) (rw (ex, ey))

  pub add_sub-Typed :
      (op : OperatorAddSub) {v w : LuaValue Double}
      → op ≢ OperatorAddSub.error
      → IsNumber v
      → IsNumber w
      → Typed v w (add_sub P op v w)
  unfolding add_sub
  add_sub-Typed OperatorAddSub.error ne h k = absurd (ne refl)
  add_sub-Typed OperatorAddSub.add ne (an_int i) (an_int j) = make_int-Typed _ tt (as_int_or _)
  add_sub-Typed OperatorAddSub.sub ne (an_int i) (an_int j) = make_int-Typed _ tt (as_int_or _)
  add_sub-Typed op ne (an_int i) (a_double d) = on_doubles (an_int i) (a_double d) (λ b. b) _
  add_sub-Typed op ne (an_int i) (a_text e) = on_doubles (an_int i) (a_text e) (λ b. b) _
  add_sub-Typed op ne (a_double d) k = on_doubles (a_double d) k (λ b. b) _
  add_sub-Typed op ne (a_text e) k = on_doubles (a_text e) k (λ b. b) _

  int_mod_or : (a b : ℤ) → (int_mod a b ≡ err undefined) ⊎ ((j : ℤ) × (int_mod a b ≡ ok j))
  int_mod_or a b = elim (int_mod_lem a b) [ inl (r, e, _) ↦ inr (r, e) | inr (e, _) ↦ inl e ]

  deref_int_or : (o : Option ℤ) → (deref_int o ≡ err undefined) ⊎ ((j : ℤ) × (deref_int o ≡ ok j))
  deref_int_or none = inl refl
  deref_int_or (some i) = inr (i, refl)

  mul_div_mod-ints :
      (op : OperatorMulDivMod) (i j : ℤ)
      → op ≢ OperatorMulDivMod.error
      → op ≢ OperatorMulDivMod.div
      → Typed (int i) (int j) (mul_div_mod P op (int i) (int j))
  unfolding mul_div_mod int_or_double as_double_weak
  mul_div_mod-ints OperatorMulDivMod.error i j ne nd = absurd (ne refl)
  mul_div_mod-ints OperatorMulDivMod.div i j ne nd = absurd (nd refl)
  mul_div_mod-ints OperatorMulDivMod.mul i j ne nd = make_int-Typed _ tt (as_int_or _)
  mul_div_mod-ints OperatorMulDivMod.modulo i j ne nd = make_int-Typed _ tt (int_mod_or i j)
  mul_div_mod-ints OperatorMulDivMod.quot i j ne nd = make_int-Typed _ tt (deref_int_or _)

  mul_div_mod-Typed :
      (op : OperatorMulDivMod) {v w : LuaValue Double}
      → op ≢ OperatorMulDivMod.error
      → op ≢ OperatorMulDivMod.div
      → IsNumber v
      → IsNumber w
      → Typed v w (mul_div_mod P op v w)
  unfolding mul_div_mod int_or_double
  mul_div_mod-Typed OperatorMulDivMod.error ne nd h k = absurd (ne refl)
  mul_div_mod-Typed OperatorMulDivMod.div ne nd h k = absurd (nd refl)
  mul_div_mod-Typed op ne nd (an_int i) (an_int j) = mul_div_mod-ints op i j ne nd
  mul_div_mod-Typed op ne nd (an_int i) (a_double d) = on_doubles (an_int i) (a_double d) (λ b. b) _
  mul_div_mod-Typed op ne nd (an_int i) (a_text e) = on_doubles (an_int i) (a_text e) (λ b. b) _
  mul_div_mod-Typed op ne nd (a_double d) k = on_doubles (a_double d) k (λ b. b) _
  mul_div_mod-Typed op ne nd (a_text e) k = on_doubles (a_text e) k (λ b. b) _

  divides :
      {v w : LuaValue Double}
      → IsNumber v
      → IsNumber w
      → ((d : Double) × (mul_div_mod P OperatorMulDivMod.div v w ≡ ok (double d)))
        × ((d : Double) × (power P v w ≡ ok (double d)))
  unfolding mul_div_mod power
  divides h k =
      let (x, ex) = number-reads h in
      let (y, ey) = number-reads k in ((div x y, rw (ex, ey)), (pow x y, rw (ex, ey)))

  -- The arithmetic of two operands that read as numbers. The sum, difference, product, remainder and
  -- floored quotient give an int or are undefined where both are ints, and a double otherwise; the
  -- quotient and the power always give a double. None of them throws.
  pub arithmetic_lem :
      {v w : LuaValue Double}
      → IsNumber v
      → IsNumber w
      → ((op : OperatorAddSub) → op ≢ OperatorAddSub.error → Typed v w (add_sub P op v w))
        × ((op : OperatorMulDivMod)
            → op ≢ OperatorMulDivMod.error
            → op ≢ OperatorMulDivMod.div
            → Typed v w (mul_div_mod P op v w))
        × ((d : Double) × (mul_div_mod P OperatorMulDivMod.div v w ≡ ok (double d)))
        × ((d : Double) × (power P v w ≡ ok (double d)))
  arithmetic_lem h k = (
    λ op ne. add_sub-Typed op ne h k,
    λ op ne nd. mul_div_mod-Typed op ne nd h k,
    (divides h k).0,
    (divides h k).1,
  )
