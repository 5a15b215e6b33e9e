-- ===== src/Types/Var/Reading.antt =====
-- A `Var` read through its value.
use luapp.Prelude.{Bool, ◌≡◌, refl, subst, Result, ok, err, ◌>>=◌, eq_nat}
use luapp.Types.Platform.{Platform}
use luapp.Types.Value.{LuaValue}
use luapp.Types.Value
use luapp.Types.Coerce
use luapp.Types.Var.{Var, rvalue, lvalue, list, var_error, Heap, deref, front, get, morph}
use luapp.Types.Var

module _ (P : Platform) where
  open P use {Double}

  -- Each reader of a `Var` gives what the same reader of a `Value` gives for the value that `get`
  -- returns, and throws what `get` throws, in every state of the bound values.
  pub readers_lem :
      (h : Heap Double) (x : Var Double)
      → (Var.as_double_weak P h x ≡ (get h x >>= Coerce.as_double_weak P))
        × ((allow : Bool) → Var.as_int_weak P allow h x ≡ (get h x >>= Coerce.as_int_weak P allow))
        × (Var.as_bool_weak P h x ≡ (get h x >>= λ v. ok (Coerce.as_bool_weak P v)))
        × (Var.as_string P h x ≡ (get h x >>= Coerce.as_string P))
        × (Var.value_as_string P h x ≡ (get h x >>= λ v. ok (Coerce.value_as_string P v)))
        × ((force : Bool)
            → Var.from_string_to_number P force h x
              ≡ (get h x >>= Coerce.from_string_to_number P force))
        × (Var.type_as_string h x ≡ (get h x >>= λ v. ok (Value.type_as_string v)))
        × (Var.has_dot h x ≡ (get h x >>= λ v. ok (Value.has_dot v)))
        × (Var.is_refcounted h x ≡ (get h x >>= λ v. ok (Value.is_refcounted v)))
  unfolding get Var.as_double_weak Var.as_int_weak Var.as_bool_weak Var.as_string
      Var.value_as_string Var.from_string_to_number Var.type_as_string Var.has_dot Var.is_refcounted
  readers_lem h (rvalue v) = (refl, (λ a. refl), refl, refl, refl, (λ f. refl), refl, refl, refl)
  readers_lem h (lvalue p) = (refl, (λ a. refl), refl, refl, refl, (λ f. refl), refl, refl, refl)
  readers_lem h (list vs) = (refl, (λ a. refl), refl, refl, refl, (λ f. refl), refl, refl, refl)
  readers_lem h var_error = (refl, (λ a. refl), refl, refl, refl, (λ f. refl), refl, refl, refl)

  -- `morph` makes of a pointer to a bound value a value of its own: it reads as the bound value did,
  -- in every later state.
  pub morph_lem :
      (h later : Heap Double) (x : Var Double) {y : Var Double}
      → morph h x ≡ ok y
      → get later y ≡ get h x
  unfolding get morph
  morph_lem h later (lvalue p) e = by_value (deref h p) e
    where
      by_value :
          (r : Result (LuaValue Double)) {y : Var Double}
          → (r >>= λ v. ok (rvalue v)) ≡ ok y
          → get later y ≡ r
      by_value (ok v) {y} e = let q : rvalue v ≡ y = cc in subst (λ z. get later z ≡ ok v) q refl
      by_value (err x) {y} e = cc
  morph_lem h later (rvalue v) e = cc
  morph_lem h later (list vs) e = cc
  morph_lem h later var_error e = cc
