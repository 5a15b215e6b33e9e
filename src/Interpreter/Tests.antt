-- ===== src/Interpreter/Tests.antt =====
-- The theorems about operators at concrete operands.
use luapp.Prelude.{
  ℕ, ◌<◌, ◌≤◌, ◌-◌, ◌*◌, ◌^◌, ◌≡◌, ◌≢◌, Bool, true, not, Error, refl, ◌↔◌, ◌⊎◌, ok, err, undefined,
}
use luapp.Prelude.Int.{ℤ, pos, negsuc}
use luapp.Types.Value.{LuaValue, int, double, string, boolean}
use luapp.Types.Coerce.{as_int_weak}
use luapp.Types.Halves.{halves}
use luapp.Interpreter.Arithmetic.{add_sub, mul_div_mod, power, comparison, negate}
use luapp.Interpreter.Arithmetic.Types.{IsNumber, a_text, an_int, Typed, arithmetic_lem}
use luapp.Interpreter.Arithmetic.Logic.{Negated, comparison_lem, negate_lem}
use luapp.Interpreter.Operators.{
  OperatorComparison, OperatorMulDivMod, OperatorAddSub, OperatorBitwise, OperatorUnary, lshift,
  rshift, visit_operator_comparison, visit_operator_mul_div_mod, visit_operator_add_sub,
  visit_operator_bitwise, visit_operator_unary, greater_s, greater_e, lower_s, lower_e, eq, diff,
}
use luapp.Interpreter.Operators.Symbols.{
  IsComparison, IsMulDivMod, IsAddSub, IsBitwise, IsUnary, visit_operators_lem,
}
use luapp.Interpreter.Arithmetic.Remainder.{IsRemainder, modulo_lem}
use luapp.Interpreter.Bitwise.{bitwise, bitwise_not}
use luapp.Interpreter.Bitwise.Words.{bitwise_not_lem, shifts_lem}

visit_operators_example :
    ((op : OperatorComparison) → (visit_operator_comparison "~" ≡ op) ↔ IsComparison op "~")
    × ((op : OperatorMulDivMod) → (visit_operator_mul_div_mod "~" ≡ op) ↔ IsMulDivMod op "~")
    × ((op : OperatorAddSub) → (visit_operator_add_sub "~" ≡ op) ↔ IsAddSub op "~")
    × ((op : OperatorBitwise) → (visit_operator_bitwise "~" ≡ op) ↔ IsBitwise op "~")
    × ((op : OperatorUnary) → (visit_operator_unary "~" ≡ op) ↔ IsUnary op "~")
visit_operators_example = visit_operators_lem "~"

modulo_example :
    ((a b : ℤ)
      → ((r : ℤ) × (mul_div_mod halves OperatorMulDivMod.modulo (int a) (int b) ≡ ok (int r))
          × IsRemainder a b r)
        ⊎ (mul_div_mod halves OperatorMulDivMod.modulo (int a) (int b) ≡ err undefined)
          × ((b ≡ pos 0) ⊎ (a ≡ negsuc (2 ^ 31 - 1)) × (b ≡ negsuc 0)))
    × ((x : ℤ) (b : ℤ)
        → mul_div_mod halves OperatorMulDivMod.modulo (double x) (int b)
          ≡ ok (double (halves.remainder x (halves.of_int b))))
    × ((a : ℤ) (y : ℤ)
        → mul_div_mod halves OperatorMulDivMod.modulo (int a) (double y)
          ≡ ok (double (halves.remainder (halves.of_int a) y)))
    × ((x y : ℤ)
        → mul_div_mod halves OperatorMulDivMod.modulo (double x) (double y)
          ≡ ok (double (halves.remainder x y)))
modulo_example = modulo_lem halves

bitwise_not_example :
    ((n : ℕ)
      → n < 2 ^ 31
      → (as_int_weak halves true (int (pos 5)) ≡ ok (pos n)
          → bitwise_not halves (int (pos 5)) ≡ ok (int (negsuc n)))
        × (as_int_weak halves true (int (pos 5)) ≡ ok (negsuc n)
            → bitwise_not halves (int (pos 5)) ≡ ok (int (pos n))))
    × ((x : Error)
        → as_int_weak halves true (int (pos 5)) ≡ err x
        → bitwise_not halves (int (pos 5)) ≡ err x)
bitwise_not_example = bitwise_not_lem halves (int (pos 5))

abbrev three : LuaValue ℤ
three = int (pos 3)

abbrev four : LuaValue ℤ
four = int (pos 4)

shifts_example :
    (4 < 32
      → 3 * 2 ^ 4 < 2 ^ 31
      → as_int_weak halves true three ≡ ok (pos 3)
      → (bitwise halves lshift three four ≡ ok (int (pos (3 * 2 ^ 4))))
        × (bitwise halves rshift (int (pos (3 * 2 ^ 4))) four ≡ ok three))
    × ((i : ℤ)
        → 32 ≤ 4
        → as_int_weak halves true three ≡ ok i
        → (bitwise halves lshift three four ≡ err undefined)
          × (bitwise halves rshift three four ≡ err undefined))
    × ((i : ℤ)
        → as_int_weak halves true three ≡ ok i
        → (bitwise halves lshift three (int (negsuc 4)) ≡ err undefined)
          × (bitwise halves rshift three (int (negsuc 4)) ≡ err undefined))
unfolding as_int_weak
shifts_example = shifts_lem halves three four 3 4 refl

abbrev ten : LuaValue ℤ
ten = string "10"

ten-IsNumber : IsNumber halves ten
ten-IsNumber = a_text refl

arithmetic_example :
    ((op : OperatorAddSub)
      → op ≢ OperatorAddSub.error
      → Typed halves ten (int (pos 3)) (add_sub halves op ten (int (pos 3))))
    × ((op : OperatorMulDivMod)
        → op ≢ OperatorMulDivMod.error
        → op ≢ OperatorMulDivMod.div
        → Typed halves ten (int (pos 3)) (mul_div_mod halves op ten (int (pos 3))))
    × ((d : ℤ) × (mul_div_mod halves OperatorMulDivMod.div ten (int (pos 3)) ≡ ok (double d)))
    × ((d : ℤ) × (power halves ten (int (pos 3)) ≡ ok (double d)))
arithmetic_example = arithmetic_lem halves ten-IsNumber (an_int (pos 3))

comparison_example :
    (comparison halves greater_s ten (int (pos 3)) ≡ comparison halves lower_s (int (pos 3)) ten)
    × (comparison halves greater_e ten (int (pos 3)) ≡ comparison halves lower_e (int (pos 3)) ten)
    × ((b : Bool) × (comparison halves lower_s ten (int (pos 3)) ≡ ok (boolean b)))
    × ((b : Bool) × (comparison halves lower_e ten (int (pos 3)) ≡ ok (boolean b)))
    × ((b : Bool) × (comparison halves eq ten (int (pos 3)) ≡ ok (boolean b))
        × (comparison halves diff ten (int (pos 3)) ≡ ok (boolean (not b))))
comparison_example = comparison_lem halves ten-IsNumber (an_int (pos 3))

negate_example : Negated halves ten (negate halves 2 ten)
negate_example = negate_lem halves 0 ten
