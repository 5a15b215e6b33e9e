-- ===== src/Interpreter/Arithmetic/Logic.antt =====
-- Comparisons the other way round, and the unary minus.
use luapp.Prelude.{
  Result, ◌>>=◌, contextless_bad_type, ℕ, suc, Bool, not, ok, err, ◌≡◌, inl, inr, refl,
  Result-cases,
}
use luapp.Prelude.Int.{pos, ◌-ℤ◌}
use luapp.Types.Platform.{Platform, as_int}
use luapp.Types.Value.{LuaValue, boolean, int, double, string, type_as_string}
use luapp.Types.Coerce.{as_double_weak, from_string_to_number}
use luapp.Interpreter.Operators.{lower_s, lower_e, greater_s, greater_e, diff, eq}
use luapp.Interpreter.Arithmetic.{comparison, compare_doubles, negate, make_int}
use luapp.Interpreter.Arithmetic.Types.{IsNumber, number-reads}

module _ (P : Platform) where
  open P use {Double, neg}

  -- A comparison of two operands that read as numbers gives a boolean, the same as the mirrored
  -- comparison with the operands swapped, and `~=` gives the opposite of `==`.
  pub comparison_lem :
      {v w : LuaValue Double}
      → IsNumber P v
      → IsNumber P w
      → (comparison P greater_s v w ≡ comparison P lower_s w v)
        × (comparison P greater_e v w ≡ comparison P lower_e w v)
        × ((b : Bool) × (comparison P lower_s v w ≡ ok (boolean b)))
        × ((b : Bool) × (comparison P lower_e v w ≡ ok (boolean b)))
        × ((b : Bool) × (comparison P eq v w ≡ ok (boolean b))
            × (comparison P diff v w ≡ ok (boolean (not b))))
  unfolding comparison compare_doubles
  comparison_lem h k =
      let (x, ex) = number-reads P h in
      let (y, ey) = number-reads P k in
      rw (ex, ey) (refl, refl, (_, refl), (_, refl), (_, refl, refl))

  -- What the unary minus makes of each operand.
  abbrev pub Negated : LuaValue Double → Result (LuaValue Double) → Type 0
  Negated (int i) r = r ≡ make_int P (as_int (pos 0 -ℤ i))
  Negated (double d) r = r ≡ ok (double (neg d))
  Negated (string s) r = r ≡ (as_double_weak P (string s) >>= λ d. ok (double (neg d)))
  Negated v r = r ≡ err (contextless_bad_type "string" (type_as_string v))

  -- The unary minus, with fuel for one call of itself: of an int it gives the int's negation, or is
  -- undefined where that is no int; of a double the negated double; of a text the negated double
  -- that it reads as, or what reading it throws; of any other operand it throws the type error of
  -- the conversion from a text.
  pub negate_lem : (fuel : ℕ) (v : LuaValue Double) → Negated v (negate P (suc (suc fuel)) v)
  unfolding negate from_string_to_number as_double_weak type_as_string
  negate_lem fuel (int i) = refl
  negate_lem fuel (double d) = refl
  negate_lem fuel (string s) = elim (Result-cases (as_double_weak P (string s))) [
    | inl (d, e) ↦ rw e
    | inr (x, e) ↦ rw e
  ]
  negate_lem fuel _ = refl
