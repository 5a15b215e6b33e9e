-- ===== src/Interpreter/Bitwise.antt =====
-- interpreter.cpp: the bitwise operators of `visitExp`, on 32-bit ints in two's complement.
pub mod Words
use Prim.Native.Nat.{bit_and, bit_or, bit_xor}
use luapp.Prelude.{
  ℕ, zero, suc, ◌+◌, ◌-◌, ◌*◌, ◌/◌, ◌%◌, ◌^◌, Bool, true, ltb, if◌then◌else◌, Result, ok, err,
  undefined, runtime_error, ◌>>=◌,
}
use luapp.Prelude.Int.{ℤ, pos, negsuc}
use luapp.Types.Platform.{Platform}
use luapp.Types.Value.{LuaValue, int}
use luapp.Types.Coerce.{as_int_weak}
use luapp.Interpreter.Operators.{OperatorBitwise, and, or, xor, lshift, rshift}

-- The bit pattern of an int, and the int of a bit pattern.
unfoldable pub to_word : ℤ → ℕ
to_word (pos n) = n % 2 ^ 32
to_word (negsuc n) = 2 ^ 32 - 1 - n % 2 ^ 32

unfoldable pub of_word : ℕ → ℤ
of_word w = if ltb w (2 ^ 31) then pos w else negsuc (2 ^ 32 - 1 - w)

-- `~i`: every bit of the pattern is changed.
unfoldable pub complement : ℤ → ℤ
complement i = of_word (2 ^ 32 - 1 - to_word i)

-- A shift by an amount that is negative, or not below the width, is undefined. To the left it is
-- the pattern of the product, to the right the quotient rounded down (C++20).
unfoldable pub shift_left : ℤ → ℤ → Result ℤ
shift_left i (negsuc k) = err undefined
shift_left i (pos k) =
    if ltb k 32 then ok (of_word ((to_word i * 2 ^ k) % 2 ^ 32)) else err undefined

unfoldable pub shift_right : ℤ → ℤ → Result ℤ
shift_right i (negsuc k) = err undefined
shift_right (pos n) (pos k) = if ltb k 32 then ok (pos (n / 2 ^ k)) else err undefined
shift_right (negsuc n) (pos k) = if ltb k 32 then ok (negsuc (n / 2 ^ k)) else err undefined

unfoldable pub bitwise_ints : OperatorBitwise → ℤ → ℤ → Result ℤ
bitwise_ints and i j = ok (of_word (bit_and (to_word i) (to_word j)))
bitwise_ints or i j = ok (of_word (bit_or (to_word i) (to_word j)))
bitwise_ints xor i j = ok (of_word (bit_xor (to_word i) (to_word j)))
bitwise_ints lshift i j = shift_left i j
bitwise_ints rshift i j = shift_right i j
bitwise_ints OperatorBitwise.error i j = err (runtime_error "Invalid Bitwise operator")

module _ (P : Platform) where
  open P use {Double}

  unfoldable pub bitwise :
      OperatorBitwise → LuaValue Double → LuaValue Double → Result (LuaValue Double)
  bitwise op leftV rightV = do
    left ← as_int_weak P true leftV
    right ← as_int_weak P true rightV
    result ← bitwise_ints op left right
    ok (int result)

  unfoldable pub bitwise_not : LuaValue Double → Result (LuaValue Double)
  bitwise_not v = do i ← as_int_weak P true v; ok (int (complement i))
