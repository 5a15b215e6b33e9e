-- ===== src/Interpreter/Arithmetic.antt =====
-- interpreter.cpp: the arithmetic of `visitExp`, on the values that the operands hold.
pub mod Remainder
pub mod Types
pub mod Logic
use Prim.Native.String.{◌++◌ as concat, len}
use luapp.Prelude.{
  ℕ, zero, suc, ◌+◌, ◌-◌, ◌*◌, ◌/◌, ◌%◌, ◌^◌, String, Bool, true, false, not, ◌&&◌, eq_nat,
  if◌then◌else◌, Result, ok, err, undefined, bad_variant_access, runtime_error, out_of_fuel, ◌>>=◌,
  none, some, nat_eq,
}
use luapp.Prelude.Int.{ℤ, pos, negsuc, sub_ℕ, ◌+ℤ◌, ◌-ℤ◌, ◌*ℤ◌}
use luapp.Prelude.Map.{Map, find}
use luapp.Types.Platform.{Platform, as_int, deref_int}
use luapp.Types.Value.{LuaValue, boolean, int, double, string, table}
use luapp.Types.Coerce.{as_string, as_double_weak, as_bool_weak, from_string_to_number}
use luapp.Types.Table.{Table}
use luapp.Types.Table.Border.{border}
use luapp.Interpreter.Operators.{
  OperatorAddSub, OperatorMulDivMod, OperatorComparison, lower_s, greater_s, lower_e, greater_e,
  diff, eq,
}

-- `%` of two ints: the sign is that of the dividend. Division by 0, and of the least int by -1, is
-- undefined.
unfoldable pub int_mod : ℤ → ℤ → Result ℤ
int_mod a (pos zero) = err undefined
int_mod (pos m) (pos (suc n)) = ok (pos (m % suc n))
int_mod (pos m) (negsuc n) = ok (pos (m % suc n))
int_mod (negsuc m) (pos (suc n)) = ok (sub_ℕ 0 (suc m % suc n))
int_mod (negsuc m) (negsuc zero) = if nat_eq m (2 ^ 31 - 1) then err undefined else ok (pos 0)
int_mod (negsuc m) (negsuc (suc n)) = ok (sub_ℕ 0 (suc m % suc (suc n)))

module _ (P : Platform) where
  open P use {Double, of_int, to_int, add, sub, mul, div, neg, pow, remainder, floor, lt, le}

  abbrev pub make_int : Result ℤ → Result (LuaValue Double)
  make_int r = r >>= λ i. ok (int i)

  unfoldable pub power : LuaValue Double → LuaValue Double → Result (LuaValue Double)
  power leftV rightV = do
    left ← as_double_weak P leftV
    right ← as_double_weak P rightV
    ok (double (pow left right))

  -- The operation on two ints, or, where one operand is none, that on doubles.
  unfoldable pub int_or_double :
      (ℤ → ℤ → Result (LuaValue Double))
      → (Double → Double → Result (LuaValue Double))
      → LuaValue Double
      → LuaValue Double
      → Double
      → Double
      → Result (LuaValue Double)
  int_or_double ints doubles (int i) (int j) left right = ints i j
  int_or_double ints doubles _ _ left right = doubles left right

  unfoldable pub mul_div_mod :
      OperatorMulDivMod → LuaValue Double → LuaValue Double → Result (LuaValue Double)
  mul_div_mod op leftV rightV = do
    left ← as_double_weak P leftV
    right ← as_double_weak P rightV
    elim op [
      | OperatorMulDivMod.mul ↦
          int_or_double (λ i j. make_int (as_int (i *ℤ j))) (λ x y. ok (double (mul x y))) leftV
            rightV left right
      | OperatorMulDivMod.div ↦ ok (double (div left right))
      | OperatorMulDivMod.modulo ↦
          int_or_double (λ i j. make_int (int_mod i j)) (λ x y. ok (double (remainder x y))) leftV
            rightV left right
      | OperatorMulDivMod.quot ↦
          int_or_double (λ _ _. make_int (deref_int (to_int (floor (div left right)))))
            (λ x y. ok (double (floor (div x y)))) leftV rightV left right
      | OperatorMulDivMod.error ↦ err (runtime_error "Invalid MulDivMod operator")
    ]

  unfoldable pub add_sub :
      OperatorAddSub → LuaValue Double → LuaValue Double → Result (LuaValue Double)
  add_sub op (int left) (int right) = elim op [
    | OperatorAddSub.add ↦ make_int (as_int (left +ℤ right))
    | OperatorAddSub.sub ↦ make_int (as_int (left -ℤ right))
    | OperatorAddSub.error ↦ err (runtime_error "Invalid AddSub operator")
  ]
  add_sub op leftV rightV = do
    left ← as_double_weak P leftV
    right ← as_double_weak P rightV
    elim op [
      | OperatorAddSub.add ↦ ok (double (add left right))
      | OperatorAddSub.sub ↦ ok (double (sub left right))
      | OperatorAddSub.error ↦ err (runtime_error "Invalid AddSub operator")
    ]

  unfoldable pub strcat : LuaValue Double → LuaValue Double → Result (LuaValue Double)
  strcat leftV rightV = do
    left ← as_string P leftV
    right ← as_string P rightV
    ok (string (concat left right))

  -- The functions of two doubles among which `visitExp` chooses.
  unfoldable pub compare_doubles : OperatorComparison → Double → Double → Result Bool
  compare_doubles diff x y = ok (not (P.eq x y))
  compare_doubles eq x y = ok (P.eq x y)
  compare_doubles greater_e x y = ok (le y x)
  compare_doubles greater_s x y = ok (lt y x)
  compare_doubles lower_e x y = ok (le x y)
  compare_doubles lower_s x y = ok (lt x y)
  compare_doubles OperatorComparison.error x y = err (runtime_error "Invalid Comparison operator")

  unfoldable pub comparison :
      OperatorComparison → LuaValue Double → LuaValue Double → Result (LuaValue Double)
  comparison op leftV rightV = do
    left ← as_double_weak P leftV
    right ← as_double_weak P rightV
    holds ← compare_doubles op left right
    ok (boolean holds)

  -- `convert` of the unary minus; the fuel bounds its calls of itself.
  unfoldable pub negate : ℕ → LuaValue Double → Result (LuaValue Double)
  negate zero v = err out_of_fuel
  negate (suc fuel) (int i) = make_int (as_int (pos 0 -ℤ i))
  negate (suc fuel) (double d) = ok (double (neg d))
  negate (suc fuel) v = from_string_to_number P true v >>= negate fuel

  unfoldable pub logical_not : LuaValue Double → LuaValue Double
  logical_not v = boolean (not (as_bool_weak P v))

  -- `#`: the size of a text in bytes, or the border of a table; `tables` are the tables by address.
  unfoldable pub bang : Map ℕ (Table P) → LuaValue Double → Result (LuaValue Double)
  bang tables (string s) = ok (int (pos (len s)))
  bang tables (table p) = elim (find p tables) [
    | none ↦ err undefined
    | some t ↦ ok (int (pos (border t)))
  ]
  bang tables _ = err bad_variant_access
