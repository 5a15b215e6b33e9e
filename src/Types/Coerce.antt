-- ===== src/Types/Coerce.antt =====
-- types.cpp: the conversions of a value to a text, a number or a boolean.
use luapp.Prelude.{
  String, Bool, true, false, not, Result, ok, err, Error, contextless_bad_type, invalid_argument,
  ◌>>=◌, if◌then◌else◌,
}
use luapp.Prelude.Int.{ℤ}
use luapp.Types.Platform.{Platform, deref_int}
use luapp.Types.Value.{
  LuaValue, boolean, int, double, string, nil, elipsis, function, userdata, table, type_as_string,
}
use Prim.Native.String.{◌++◌ as concat}

module _ (P : Platform) where
  open P use {Double, of_int, to_int, is_whole, stod, stoi, show_int, show_double, show_pointer}

  unfoldable pub as_string : LuaValue Double → Result String
  as_string (string s) = ok s
  as_string (int i) = ok (show_int i)
  as_string (double d) = ok (show_double d)
  as_string nil = ok "nil"
  as_string v = err (contextless_bad_type "number or string" (type_as_string v))

  -- A double with no fractional part as an `int`; `bad` is what else is thrown.
  abbrev pub whole : Error → Double → Result ℤ
  whole bad d = if is_whole d then deref_int (to_int d) else err bad

  -- `catch (std::invalid_argument&)`.
  abbrev pub catch_invalid {ℓ} : {A : Type ℓ} → Result A → Result A → Result A
  catch_invalid (ok a) handler = ok a
  catch_invalid (err invalid_argument) handler = handler
  catch_invalid (err e) handler = err e

  unfoldable pub as_int_weak : Bool → LuaValue Double → Result ℤ
  as_int_weak allow_double (int i) = ok i
  as_int_weak allow_double (double d) =
      if not allow_double
      then err (contextless_bad_type "integer or integer-string" "double")
      else whole (contextless_bad_type "integer" "double") d
  as_int_weak allow_double (string s) =
      catch_invalid (stod s >>= whole (contextless_bad_type "weak integer" "string of double"))
        (stoi s)
  as_int_weak allow_double v = err (contextless_bad_type "weak integer" (type_as_string v))

  unfoldable pub as_double_weak : LuaValue Double → Result Double
  as_double_weak (double d) = ok d
  as_double_weak (int i) = ok (of_int i)
  as_double_weak (string s) = stod s
  as_double_weak v = err (contextless_bad_type "weak double" (type_as_string v))

  unfoldable pub as_bool_weak : LuaValue Double → Bool
  as_bool_weak (boolean b) = b
  as_bool_weak nil = false
  as_bool_weak _ = true

  unfoldable pub from_string_to_number : Bool → LuaValue Double → Result (LuaValue Double)
  from_string_to_number force_double (string s) =
      let as_double : Result (LuaValue Double) = as_double_weak (string s) >>= λ d. ok (double d) in
      if force_double
      then as_double
      else catch_invalid (as_int_weak true (string s) >>= λ i. ok (int i)) as_double
  from_string_to_number force_double v = err (contextless_bad_type "string" (type_as_string v))

  unfoldable pub value_as_string : LuaValue Double → String
  value_as_string nil = "nil"
  value_as_string (double d) = show_double d
  value_as_string (int i) = show_int i
  value_as_string (string s) = s
  value_as_string (function p) = concat "function: " (show_pointer p)
  value_as_string (userdata p) = concat "userdata: " (show_pointer p)
  value_as_string (table p) = concat "table: " (show_pointer p)
  value_as_string (boolean b) = if b then "true" else "false"
  value_as_string (elipsis _) = "unknown type"
