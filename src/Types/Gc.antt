-- ===== src/Types/Gc.antt =====
-- types.h and types.cpp: the counts of `GC`, and those of `Value` objects.
pub mod Keys
pub mod Counting
use luapp.Prelude.{
  ℕ, zero, suc, ◌+◌, ◌-◌, ◌%◌, ◌^◌, ◌<◌, List, [], ◌∷◌, ◌++◌, Bool, true, false, Option, none, some,
  ◌==◌, eq_string, bool_eq, nat_eq, if◌then◌else◌, ◌≡◌, refl, Result, ok, err, runtime_error,
  undefined, arith,
}
use luapp.Types.Platform.{Platform, int_eq}
use luapp.Types.Value.{
  LuaValue, boolean, int, double, string, nil, elipsis, function, userdata, table, is_refcounted,
}
use luapp.Types.Table.{same_double}

-- `unsigned int`.
abbrev pub uint_mod : ℕ
uint_mod = 2 ^ 32

module _ (P : Platform) where
  open P use {Double}

  -- A std::map takes two keys for one if neither is less than the other. `operator<` of Nil and of
  -- Elipsis is always true, so these are never one with themselves.
  unfoldable pub same_key : LuaValue Double → LuaValue Double → Bool
  same_key (boolean a) (boolean b) = bool_eq a b
  same_key (int a) (int b) = int_eq a b
  same_key (double a) (double b) = same_double P a b
  same_key (string a) (string b) = a == b
  same_key (function a) (function b) = nat_eq a b
  same_key (userdata a) (userdata b) = nat_eq a b
  same_key (table a) (table b) = nat_eq a b
  same_key _ _ = false

  -- The counts, and the values whose objects were deleted, the latest last.
  pub record Gc : Type 0 where
    pub references : List (LuaValue Double × ℕ)
    pub deleted : List (LuaValue Double)

  unfoldable pub count_of : LuaValue Double → List (LuaValue Double × ℕ) → Option ℕ
  count_of l [] = none
  count_of l ((k, n) ∷ m) = if same_key k l then some n else count_of l m

  unfoldable pub set_count :
      LuaValue Double → ℕ → List (LuaValue Double × ℕ) → List (LuaValue Double × ℕ)
  set_count l n [] = (l, n) ∷ []
  set_count l n ((k, c) ∷ m) = if same_key k l then (k, n) ∷ m else (k, c) ∷ set_count l n m

  unfoldable pub drop_count :
      LuaValue Double → List (LuaValue Double × ℕ) → List (LuaValue Double × ℕ)
  drop_count l [] = []
  drop_count l ((k, c) ∷ m) =
      let rest = drop_count l m in if same_key k l then rest else (k, c) ∷ rest

  abbrev pub or_zero : Option ℕ → ℕ
  or_zero none = 0
  or_zero (some n) = n

  -- `_references[l]++`.
  unfoldable pub add_reference : LuaValue Double → Gc → Gc
  add_reference l g = record g {
    references = set_count l ((or_zero (count_of l g.references) + 1) % uint_mod) g.references;
  }

  -- `Deleter`: an object is deleted for a pointer, and nothing for any other value.
  abbrev pub delete : LuaValue Double → List (LuaValue Double) → List (LuaValue Double)
  delete l freed = if is_refcounted l then freed ++ l ∷ [] else freed

  unfoldable pub remove_counted : LuaValue Double → Option ℕ → Gc → Result Gc
  remove_counted l none g = ok g
  remove_counted l (some zero) g =
      err (runtime_error "Attempt to remove reference of value without reference")
  remove_counted l (some (suc zero)) g =
      ok (record { references = drop_count l g.references; deleted = delete l g.deleted })
  remove_counted l (some (suc (suc n))) g =
      ok (record g { references = set_count l (suc n) g.references })

  unfoldable pub remove_reference : LuaValue Double → Gc → Result Gc
  remove_reference l g = remove_counted l (count_of l g.references) g

-- A `Value` object on the heap counts the names that hold it, from 1 on. `none`: it was deleted.
unfoldable pub add_value_reference : ℕ → ℕ
add_value_reference references = (references + 1) % uint_mod

unfoldable pub remove_value_reference : ℕ → Result (Option ℕ)
remove_value_reference zero = err (runtime_error "Removing reference on object with no references")
remove_value_reference (suc zero) = ok none
remove_value_reference (suc (suc n)) = ok (some (suc n))
