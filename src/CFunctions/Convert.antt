-- ===== src/CFunctions/Convert.antt =====
-- types.h: `Converter`, from a value to what a C++ function takes.
use luapp.Prelude.{
  Bool, true, false, ◌&&◌, bad_any_cast, Result-cases, ℕ, List, [], ◌∷◌, Option, none, some, Result,
  ok, err, runtime_error, eq_nat, nat_eq, nat_eq_iff, if◌then◌else◌, ◌>>=◌, ◌≡◌, refl, ap, sym, ◌⊎◌,
  inl, inr, In, Bool-cases, arith,
}
use luapp.Prelude.Map.{Map, find}
use luapp.Types.Value.{LuaValue, index}

-- The type of a parameter. A plain type is its `std::type_index`; those of the alternatives of
-- `LuaValue` are their positions there, which is what `Value::is` tests. A variant has a first
-- alternative, and perhaps more.
pub data Kind : Type 0 where
  plain : ℕ → Kind
  optional : ℕ → Kind
  variant : ℕ → List ℕ → Kind

-- The conversions that are registered; an `A` is what a `std::any` can hold.
abbrev pub Conversions : Type 0 → Type 0 → Type 0
Conversions D A = Map ℕ (LuaValue D → Result A)

-- What a `std::any` holds: the result of a conversion, or a variant of the types with that in it.
pub data Held (A : Type 0) : Type 0 where
  bare : A → Held A
  wrapped : List ℕ → A → Held A

unfoldable pub same_types : List ℕ → List ℕ → Bool
same_types [] [] = true
same_types (t ∷ ts) (u ∷ us) = nat_eq t u && same_types ts us
same_types _ _ = false

-- `type_of` is the type of what a conversion has put into the `std::any`.
module _ {D A : Type 0} (type_of : A → ℕ) (conversions : Conversions D A) where
  -- The text goes on with the name of the type, which is the implementation's choice.
  unfoldable pub convert_plain : ℕ → LuaValue D → Result A
  convert_plain t src = elim (find t conversions) [
    | none ↦
        err (
          runtime_error "Attempting to convert a type that has no registered conversion function: ")
    | some convert ↦ convert src
  ]

  -- `std::any_cast<T>` of what a conversion has put there.
  unfoldable pub cast : ℕ → A → Result A
  cast t a = if nat_eq (type_of a) t then ok a else err bad_any_cast

  unfoldable pub convert_variant : ℕ → List ℕ → LuaValue D → Result A
  convert_variant t [] src =
      if nat_eq (index src) t then (convert_plain t src >>= cast t) else err (runtime_error "?")
  convert_variant t (u ∷ us) src =
      let rest = convert_variant u us src in
      if nat_eq (index src) t then (convert_plain t src >>= cast t) else rest

  -- What `dst` holds afterwards; for an optional type it stays empty.
  unfoldable pub perform_conversion : Kind → LuaValue D → Result (Option (Held A))
  perform_conversion (plain t) src = convert_plain t src >>= λ a. ok (some (bare a))
  perform_conversion (optional t) src = ok none
  perform_conversion (variant t ts) src =
      convert_variant t ts src >>= λ a. ok (some (wrapped (t ∷ ts) a))

  -- `std::any_cast` to the type of a parameter.
  unfoldable pub any_cast : Kind → Option (Held A) → Result (Held A)
  any_cast (plain t) (some (bare a)) = cast t a >>= λ b. ok (bare b)
  any_cast (variant t ts) (some (wrapped us a)) =
      if same_types us (t ∷ ts) then ok (wrapped us a) else err bad_any_cast
  any_cast _ _ = err bad_any_cast

  -- The conversion for the alternative of the value itself, which is to hold a value of its type.
  abbrev pub convert_own : LuaValue D → Result A
  convert_own src = convert_plain (index src) src >>= cast (index src)

  convert_variant_cases :
      (t : ℕ) (ts : List ℕ) (src : LuaValue D)
      → (In (index src) (t ∷ ts) × (convert_variant t ts src ≡ convert_own src))
        ⊎ ((In (index src) (t ∷ ts) → ⊥) × (convert_variant t ts src ≡ err (runtime_error "?")))
  unfolding convert_variant
  convert_variant_cases t [] src = elim (Bool-cases (nat_eq (index src) t)) [
    | inl e ↦ rw e (
        inl (
          inl (ground arith),
          ap (λ u. convert_plain u src >>= cast u) (sym ((nat_eq_iff (index src) t).0 e)),
        ))
    | inr e ↦ rw e (inr (elim [ inl q ↦ ground arith | inr q ↦ absurd q ], refl))
  ]
  convert_variant_cases t (u ∷ us) src = elim (Bool-cases (nat_eq (index src) t)) [
    | inl e ↦ rw e (
        inl (
          inl (ground arith),
          ap (λ u. convert_plain u src >>= cast u) (sym ((nat_eq_iff (index src) t).0 e)),
        ))
    | inr e ↦ rw e (elim (convert_variant_cases u us src) [
      | inl (m, p) ↦ inl (inr m, p)
      | inr (m, p) ↦ inr (elim [ inl q ↦ ground arith | inr n ↦ m n ], p)
    ])
  ]

  same_types_refl : (ts : List ℕ) → same_types ts ts ≡ true
  unfolding same_types
  same_types_refl [] = refl
  same_types_refl (t ∷ ts) = rw (same_types_refl ts) (ground arith)

  -- The argument for a parameter that is a variant: the value converted for its own alternative,
  -- wrapped as that variant, where the variant has the alternative and the conversion gives a value
  -- of that type; bad_any_cast is thrown where it gives another, and "?" where the variant does not
  -- have the alternative.
  pub perform_conversion_lem :
      (t : ℕ) (ts : List ℕ) (src : LuaValue D)
      → (In (index src) (t ∷ ts)
          × ((perform_conversion (variant t ts) src >>= any_cast (variant t ts))
              ≡ (convert_own src >>= λ a. ok (wrapped (t ∷ ts) a))))
        ⊎ ((In (index src) (t ∷ ts) → ⊥)
            × ((perform_conversion (variant t ts) src >>= any_cast (variant t ts))
                ≡ err (runtime_error "?")))
  unfolding perform_conversion any_cast
  perform_conversion_lem t ts src = elim (convert_variant_cases t ts src) [
    | inl (m, e) ↦ inl (
      m,
      rw e (elim (Result-cases (convert_own src)) [
        | inl (a, q) ↦ rw (q, same_types_refl (t ∷ ts)) refl
        | inr (x, q) ↦ rw q refl
      ]),
    )
    | inr (m, e) ↦ inr (m, rw e refl)
  ]
