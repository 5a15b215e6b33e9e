-- ===== src/CFunctions/Meta.antt =====
-- meta_types.h: the templates that compute with types. A type without a definition is `none`.
pub mod Rebuilding
use luapp.Prelude.{
  String, List, [], ◌∷◌, ◌++◌, Option, none, some, Bool, true, false, ◌≡◌, refl, ap, sym, ◌∙◌, ◌↔◌,
}

mutual
  -- A C++ type, as far as the templates tell types apart.
  pub data Cpp : Type 0 where
    plain : String → Cpp
    variant : Cpps → Cpp
    optional : Cpp → Cpp
    tuple : Cpps → Cpp
    function : Cpp → Cpps → Cpp

  -- A pack of template arguments, and `ArgsList` of it.
  pub data Cpps : Type 0 where
    nothing : Cpps
    pack : Cpp → Cpps → Cpps

unfoldable pub first_of : Cpps → Option Cpp
first_of nothing = none
first_of (pack t args) = some t

-- A function type without its first parameter.
unfoldable pub function_reducer : Cpp → Option Cpp
function_reducer (function f (pack t args)) = some (function f args)
function_reducer _ = none

unfoldable pub is_variant : Cpp → Bool
is_variant (variant args) = true
is_variant _ = false

unfoldable pub is_optional : Cpp → Bool
is_optional (optional t) = true
is_optional _ = false

unfoldable pub is_tuple : Cpp → Bool
is_tuple (tuple args) = true
is_tuple _ = false

-- `ArgsList<...>::Head`, `::Tail` and `::end`; the list of one type has no tail.
unfoldable pub head : Cpps → Option Cpp
head nothing = none
head (pack t args) = some t

unfoldable pub tail : Cpps → Option Cpps
tail (pack t (pack u args)) = some (pack u args)
tail _ = none

unfoldable pub end : Cpps → Option Bool
end nothing = none
end (pack t nothing) = some true
end (pack t (pack u args)) = some false

unfoldable pub variant_args : Cpp → Option Cpps
variant_args (variant args) = some args
variant_args _ = none

-- One more type at the end of a pack.
unfoldable pub push_back : Cpps → Cpp → Cpps
push_back nothing t = pack t nothing
push_back (pack u args) t = pack u (push_back args t)

-- The second pack is that of the types taken so far.
unfoldable pub variant_from_al_rec : Cpps → Cpps → Option Cpp
variant_from_al_rec nothing taken = none
variant_from_al_rec (pack t nothing) taken = some (variant (push_back taken t))
variant_from_al_rec (pack t (pack u args)) taken =
    variant_from_al_rec (pack u args) (push_back taken t)

unfoldable pub variant_from_al : Cpps → Option Cpp
variant_from_al nothing = none
variant_from_al (pack t args) = elim (tail (pack t args)) [
  | none ↦ none
  | some rest ↦ variant_from_al_rec rest (pack t nothing)
]

-- The type that `convert_variant` builds for a variant, out of the list of its types.
unfoldable pub rebuilt : Cpp → Option Cpp
rebuilt c = elim (variant_args c) [ none ↦ none | some al ↦ variant_from_al al ]
