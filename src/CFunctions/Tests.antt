-- ===== src/CFunctions/Tests.antt =====
-- The theorems about C++ functions at a function of an int and of a text or a number.
use luapp.Prelude.{List, [], ◌∷◌, ◌≡◌, ◌⊎◌, In, ok, err, runtime_error, ◌>>=◌}
use luapp.Prelude.Int.{ℤ, pos}
use luapp.Types.Value.{LuaValue, int, string, index}
use luapp.Prelude.{◌↔◌, some, none}
use luapp.CFunctions.Meta.{Cpp, plain, variant, nothing, pack, rebuilt}
use luapp.CFunctions.Meta.Rebuilding.{IsVariantOfSeveral, rebuilt_lem}
use luapp.CFunctions.Convert.{
  Kind, plain, variant, Conversions, wrapped, perform_conversion, any_cast, convert_own,
  perform_conversion_lem,
}
use luapp.CFunctions.Curried.{call_c_function}
use luapp.CFunctions.Binding.{arguments, call_c_function_lem}

-- The conversions of ints and texts keep the value itself.
abbrev conversions : Conversions ℤ (LuaValue ℤ)
conversions = (1, λ v. ok v) ∷ (3, λ v. ok v) ∷ []

abbrev kinds : List Kind
kinds = plain 1 ∷ variant 3 (1 ∷ []) ∷ []

abbrev text : LuaValue ℤ
text = string "x"

abbrev given : List (LuaValue ℤ)
given = int (pos 7) ∷ text ∷ []

call_c_function_example :
    call_c_function index conversions kinds given ≡ arguments index conversions kinds given
call_c_function_example = call_c_function_lem index conversions kinds given

abbrev text_or_int : Kind
text_or_int = variant 3 (1 ∷ [])

perform_conversion_example :
    (In (index text) (3 ∷ 1 ∷ [])
      × ((perform_conversion index conversions text_or_int text
            >>= any_cast index conversions text_or_int)
          ≡ (convert_own index conversions text >>= λ a. ok (wrapped (3 ∷ 1 ∷ []) a))))
    ⊎ ((In (index text) (3 ∷ 1 ∷ []) → ⊥)
        × ((perform_conversion index conversions text_or_int text
              >>= any_cast index conversions text_or_int)
            ≡ err (runtime_error "?")))
perform_conversion_example = perform_conversion_lem index conversions 3 (1 ∷ []) text

-- std::variant<int, double>, which has its list of types.
abbrev number : Cpp
number = variant (pack (plain "int") (pack (plain "double") nothing))

rebuilt_lem_example :
    ((rebuilt number ≡ some number) ↔ IsVariantOfSeveral number)
    × ((rebuilt number ≡ none) ↔ (IsVariantOfSeveral number → ⊥))
rebuilt_lem_example = rebuilt_lem number
