-- ===== src/Types/Tests.antt =====
-- The theorems about values at concrete ones.
use luapp.Prelude.{
  err, runtime_error, zero, suc, refl, eq_nat, Bool, ◌>>=◌, List, [], ◌∷◌, true, false, none, some,
  ◌≡◌, ◌≢◌, ok, arith,
}
use luapp.Prelude.Int.{ℤ, pos}
use luapp.Prelude.Map.{find}
use luapp.Types.Value.{Values, elipsis, LuaValue, int, double, string, table, nil, boolean}
use luapp.Types.Value
use luapp.Types.Coerce
use luapp.Types.Var
use luapp.Types.Var.{object, Heap, lvalue, rvalue, get, morph, deref}
use luapp.Types.Var.Reading.{morph_lem, readers_lem}
use luapp.Types.Halves.{halves}
use luapp.Types.Equal.{equal}
use luapp.Types.Equal.Laws.{Decided, equal-Decided, equal_comm}
use luapp.Types.Table.{Table, make, add_field, subscript, eq_int}
use luapp.Types.Table.Fields.{field, BothDouble, IsKey, Subscripted, add_field_lem, subscript_lem}
use luapp.Types.Table.Border.{IsBorder, border, border_lem}
use luapp.Types.Gc.{Gc}
use luapp.Types.Gc.Keys.{IsReference}
use luapp.Types.Gc.Counting.{Op, add, remove, run, Bounded, view, steps, run_lem}

abbrev LuaInt : Type 0
LuaInt = LuaValue ℤ

-- `{"a", "b", [5] = "c", x = true}`.
abbrev letters : Table halves
letters = make halves (
    (int (pos 1), string "a")
    ∷ (int (pos 2), string "b")
    ∷ (int (pos 5), string "c")
    ∷ (string "x", boolean true)
    ∷ [])

abbrev two : LuaInt
two = int (pos 2)

add_field_example :
    (field halves two (add_field halves two nil letters) ≡ some nil)
    × ((j : LuaInt)
        → two ≢ j
        → (BothDouble halves two j → ⊥)
        → field halves j (add_field halves two nil letters) ≡ field halves j letters)
add_field_example = add_field_lem halves two nil letters tt

subscript_example :
    (IsKey halves two → Subscripted halves two false letters)
    × (two ≡ nil
        → subscript halves two false letters ≡ err (runtime_error "No nil allowed in table"))
    × ((vs : Values ℤ)
        → two ≡ elipsis vs
        → subscript halves two false letters ≡ err (runtime_error "No elipsis allowed in table"))
subscript_example = subscript_lem halves two false letters

border_example : IsBorder (λ n. find (pos n) letters.int_fields) (border letters)
border_example = border_lem {P = halves} letters

equal-Decided_example :
    Decided halves two (double (pos 5)) (equal halves false two (double (pos 5)))
equal-Decided_example = equal-Decided halves two (double (pos 5))

equal_comm_example : equal halves false two (string "10") ≡ equal halves false (string "10") two
equal_comm_example = equal_comm halves false two (string "10") tt

abbrev calls : List (Op halves)
calls = add (table 1) ∷ add (table 2) ∷ remove (table 1) ∷ remove (table 2) ∷ remove (table 2) ∷ []

abbrev counted_once : Gc halves
counted_once = record { references = (table 2, 1) ∷ []; deleted = [] }

run_example :
    (g : Gc halves) × (run halves calls counted_once ≡ ok g)
    × Bounded halves 3 g
    × ((p : LuaInt)
        → IsReference halves p
        → view halves p g ≡ steps halves p calls (view halves p counted_once))
run_example = run_lem halves calls 3 counted_once ((omega arith, omega arith), tt) (omega arith)

-- The values at two addresses, and what they are later.
abbrev before : Heap ℤ
before (object (suc zero)) = some two
before (object _) = some (string "10")
before _ = none

abbrev after : Heap ℤ
after _ = some nil

morph_example : get after (rvalue two) ≡ get before (lvalue (object 1))
unfolding morph deref
morph_example = morph_lem halves before after (lvalue (object 1)) refl

readers_example :
    (Var.as_double_weak halves before (lvalue (object 2))
      ≡ (get before (lvalue (object 2)) >>= Coerce.as_double_weak halves))
    × ((allow : Bool)
        → Var.as_int_weak halves allow before (lvalue (object 2))
          ≡ (get before (lvalue (object 2)) >>= Coerce.as_int_weak halves allow))
    × (Var.as_bool_weak halves before (lvalue (object 2))
        ≡ (get before (lvalue (object 2)) >>= λ v. ok (Coerce.as_bool_weak halves v)))
    × (Var.as_string halves before (lvalue (object 2))
        ≡ (get before (lvalue (object 2)) >>= Coerce.as_string halves))
    × (Var.value_as_string halves before (lvalue (object 2))
        ≡ (get before (lvalue (object 2)) >>= λ v. ok (Coerce.value_as_string halves v)))
    × ((force : Bool)
        → Var.from_string_to_number halves force before (lvalue (object 2))
          ≡ (get before (lvalue (object 2)) >>= Coerce.from_string_to_number halves force))
    × (Var.type_as_string before (lvalue (object 2))
        ≡ (get before (lvalue (object 2)) >>= λ v. ok (Value.type_as_string v)))
    × (Var.has_dot before (lvalue (object 2))
        ≡ (get before (lvalue (object 2)) >>= λ v. ok (Value.has_dot v)))
    × (Var.is_refcounted before (lvalue (object 2))
        ≡ (get before (lvalue (object 2)) >>= λ v. ok (Value.is_refcounted v)))
readers_example = readers_lem halves before (lvalue (object 2))
