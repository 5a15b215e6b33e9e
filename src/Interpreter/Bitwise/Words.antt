-- ===== src/Interpreter/Bitwise/Words.antt =====
-- The words behind the bitwise operators: ints and bit patterns correspond; the complement and the
-- shifts.
use luapp.Prelude.{
  ℕ, zero, suc, ◌*◌, ◌%◌, ◌^◌, ◌≤◌, ◌<◌, true, false, ltb, ok, err, undefined, Error, ◌≡◌, refl,
  arith,
}
use native.Mathlib.Nat.{two-pow-succ, mul-div_cancel}
use luapp.Prelude.Int.{ℤ, pos, negsuc}
use luapp.Types.Platform.{Platform, IsInt}
use luapp.Types.Value.{LuaValue, int}
use luapp.Types.Coerce.{as_int_weak}
use luapp.Interpreter.Operators.{lshift, rshift}
use luapp.Interpreter.Bitwise.{
  to_word, of_word, complement, shift_left, shift_right, bitwise_ints, bitwise, bitwise_not,
}

-- Every int has one bit pattern, and every pattern of 32 bits is that of one int.
word_roundtrip :
    ((i : ℤ) → IsInt i → of_word (to_word i) ≡ i) × ((w : ℕ) → w < 2 ^ 32 → to_word (of_word w) ≡ w)
unfolding of_word to_word
word_roundtrip =
    (elim [ pos n ↦ λ h. ground arith | negsuc n ↦ λ h. ground arith ], λ w h. ground arith)

complement_cases :
    (n : ℕ) → n < 2 ^ 31 → (complement (pos n) ≡ negsuc n) × (complement (negsuc n) ≡ pos n)
unfolding complement of_word to_word
complement_cases n h = (ground arith, ground arith)

two_pow_pos : (k : ℕ) → 0 < 2 ^ k
two_pow_pos zero = omega arith
two_pow_pos (suc k) = omega (arith, two-pow-succ k, two_pow_pos k)

shift_cases :
    (n k : ℕ)
    → k < 32
    → n * 2 ^ k < 2 ^ 31
    → (shift_left (pos n) (pos k) ≡ ok (pos (n * 2 ^ k)))
      × (shift_right (pos (n * 2 ^ k)) (pos k) ≡ ok (pos n))
unfolding shift_left shift_right to_word of_word
shift_cases n k h lt =
    let p = two_pow_pos k in
    let small : n ≤ n * 2 ^ k = grind arith in
    let fits : n % 2 ^ 32 ≡ n = omega arith in
    let whole : n * 2 ^ k % 2 ^ 32 ≡ n * 2 ^ k = omega arith in
    (rw (fits, whole) (ground arith), rw (mul-div_cancel n p) (ground arith))

shift_wide :
    (i : ℤ) (k : ℕ)
    → 32 ≤ k
    → (shift_left i (pos k) ≡ err undefined) × (shift_right i (pos k) ≡ err undefined)
unfolding shift_left shift_right
shift_wide (pos n) k h = let wide : ltb k 32 ≡ false = (ground arith) in rw wide (refl, refl)
shift_wide (negsuc n) k h = let wide : ltb k 32 ≡ false = (ground arith) in rw wide (refl, refl)

module _ (P : Platform) where
  open P use {Double}

  -- The operator `~` on a value that reads as the int i gives -i - 1; on any other value it throws
  -- what reading it throws.
  pub bitwise_not_lem :
      (v : LuaValue Double)
      → ((n : ℕ)
          → n < 2 ^ 31
          → (as_int_weak P true v ≡ ok (pos n) → bitwise_not P v ≡ ok (int (negsuc n)))
            × (as_int_weak P true v ≡ ok (negsuc n) → bitwise_not P v ≡ ok (int (pos n))))
        × ((x : Error) → as_int_weak P true v ≡ err x → bitwise_not P v ≡ err x)
  unfolding bitwise_not
  bitwise_not_lem v = (
    λ n h. (λ e. rw (e, (complement_cases n h).0) refl, λ e. rw (e, (complement_cases n h).1) refl),
    λ x e. rw e refl,
  )

  -- The operators `<<` and `>>` on operands that read as ints. The first multiplies a number that is
  -- not negative by the power of two, where the product is an int, and the second undoes it; by a
  -- number that is negative, or not below 32, both are undefined.
  pub shifts_lem :
      (v w : LuaValue Double) (n k : ℕ)
      → as_int_weak P true w ≡ ok (pos k)
      → (k < 32
          → n * 2 ^ k < 2 ^ 31
          → as_int_weak P true v ≡ ok (pos n)
          → (bitwise P lshift v w ≡ ok (int (pos (n * 2 ^ k))))
            × (bitwise P rshift (int (pos (n * 2 ^ k))) w ≡ ok (int (pos n))))
        × ((i : ℤ)
            → 32 ≤ k
            → as_int_weak P true v ≡ ok i
            → (bitwise P lshift v w ≡ err undefined) × (bitwise P rshift v w ≡ err undefined))
        × ((i : ℤ)
            → as_int_weak P true v ≡ ok i
            → (bitwise P lshift v (int (negsuc k)) ≡ err undefined)
              × (bitwise P rshift v (int (negsuc k)) ≡ err undefined))
  unfolding bitwise bitwise_ints as_int_weak shift_left shift_right
  shifts_lem v w n k ew = (
    λ h lt ev. (
      rw (bitwise, bitwise_ints, ev, ew, (shift_cases n k h lt).0) refl,
      rw (bitwise, bitwise_ints, ew, (shift_cases n k h lt).1) refl,
    ),
    λ i h ev. (
      rw (bitwise, bitwise_ints, ev, ew, (shift_wide i k h).0) refl,
      rw (bitwise, bitwise_ints, ev, ew, (shift_wide i k h).1) refl,
    ),
    λ i ev. (rw (bitwise, bitwise_ints, ev) refl, rw (bitwise, bitwise_ints, ev) refl),
  )
