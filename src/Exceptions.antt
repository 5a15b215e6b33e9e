-- ===== src/Exceptions.antt =====
-- exceptions.cpp: the texts of the exceptions.
use Prim.Native.String.{◌++◌ as concat}
use luapp.Prelude.{
  String, List, [], ◌∷◌, Bool, true, false, nat_eq, length, if◌then◌else◌, Error, bad_type,
  value_equality_expected, type_equality_expected, nil_dot, bad_dot_access, crossed_local,
  invisible_label, lonely_break, label_already_defined, bad_call, bad_for_in, for_in_bad_type,
  bind_overflow, unbounded_call, runtime_error, undefined, out_of_fuel,
}
use luapp.Prelude.Int.{pos}
use luapp.Types.Platform.{Platform}

abbrev join : List String → String
join [] = ""
join (t ∷ ts) = concat t (join ts)

-- The locals, each with a space after it.
unfoldable pub listed : List String → String
listed [] = ""
listed (local ∷ locals) = join (local ∷ " " ∷ listed locals ∷ [])

-- An error that is no exception, and passes every handler: C++ does not say what happens.
abbrev pub is_exception : Error → Bool
is_exception undefined = false
is_exception out_of_fuel = false
is_exception _ = true

-- `what()`. The texts of the exceptions of the C++ library are `library`.
unfoldable pub what : Platform → (Error → String) → Error → String
what P library (bad_type expected received context) =
    join
      ("Bad type received " ∷ context ∷ ": expected " ∷ expected ∷ ", got " ∷ received ∷ "\n" ∷ [])
what P library (value_equality_expected expression expected received) =
    join
      ("Expression " ∷ expression ∷ " has value " ∷ received ∷ ", expected " ∷ expected ∷ "\n" ∷ [])
what P library (type_equality_expected expression expected received) =
    join
      ("Expression " ∷ expression ∷ " has type " ∷ received ∷ ", expected " ∷ expected ∷ "\n" ∷ [])
what P library nil_dot = "Attempt to use dot on nil value"
what P library (bad_dot_access type_) = join ("Attempt to use dot on " ∷ type_ ∷ [])
what P library (crossed_local label locals) =
    let plural = if nat_eq (length locals) 1 then "" else "s" in
    join ("goto " ∷ label ∷ " crosses initialization of local" ∷ plural ∷ ": " ∷ listed locals ∷ [])
what P library (invisible_label label) = join ("Label " ∷ label ∷ " is not visible\n" ∷ [])
what P library (lonely_break line) =
    join ("Lonely break found on line " ∷ P.show_int (pos line) ∷ "\n" ∷ [])
what P library (label_already_defined label) = join ("Label " ∷ label ∷ " already defined\n" ∷ [])
what P library (bad_call type_) = join ("Attempted to call a function on " ∷ type_ ∷ [])
what P library bad_for_in = "No iteration function available for `for in`\n"
what P library (for_in_bad_type type_) =
    join ("First result of expression of `for in` is " ∷ type_ ∷ ", expected function\n" ∷ [])
what P library bind_overflow = "Attempted to bind too many parameter to function\n"
what P library unbounded_call = "Attempted to call function without all parameters bound\n"
what P library (runtime_error text) = text
what P library e = library e
