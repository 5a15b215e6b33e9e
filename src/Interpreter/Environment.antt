-- ===== src/Interpreter/Environment.antt =====
-- interpreter.h and interpreter.cpp: the values that names are bound to, in blocks, closures and the
-- global store.
pub mod Lookup
pub mod Closing
mod Tests
use luapp.Prelude.{
  zero, suc, length, true, false, nat_eq, out_of_fuel, ℕ, String, List, [], ◌∷◌, ◌++◌, Bool, Option,
  none, some, ◌==◌, eq_nat, eq_string, if◌then◌else◌, Result, ok, err, undefined, nil_dot,
  runtime_error, ◌>>=◌,
}
use luapp.Prelude.Map.{Map, find, put, erase}
use luapp.Analyzer.Scope.{Block, nullptr}
use luapp.Analyzer.State.{Analyzer, BlocksPerLocal, equal_range, at, touch}
use luapp.Types.Platform.{Platform}
use luapp.Types.Value.{LuaValue, function, is_refcounted}
use luapp.Types.Table.{Table}
use luapp.Types.Gc.{Gc, count_of, remove_reference, add_value_reference, remove_value_reference}

-- Names and the addresses of the `Value` objects that they are bound to.
abbrev pub ValueStore : Type 0
ValueStore = Map String ℕ

pub data Scope : Type 0 where
  global : Scope
  local : Scope
  closure : Scope

-- `get_context_for_local`: the blocks that may hold the local, and that nothing else is changed but
-- that the block has an entry.
unfoldable pub get_context_for_local : Block → String → Analyzer → List Block × Analyzer
get_context_for_local ctx name a =
    let known : BlocksPerLocal = at [] ctx a.locals_per_block in
    (equal_range name known, record a { locals_per_block = touch [] ctx a.locals_per_block })

pub data VarContext : Type 0 where
  varlist : VarContext
  other : VarContext

-- `LuaFunction`: the formal parameters and the body, or the builder of a C++ function. The closure of
-- a Lua function stands apart.
pub data Code : Type 0 where
  pure : List String → Block → Code
  c : ℕ → Code

abbrev pub latest : Option ℕ → Option ℕ → Option ℕ
latest candidate none = candidate
latest candidate (some a) = some a

abbrev pub is_one : Option ℕ → Bool
is_one none = false
is_one (some n) = nat_eq n 1

module _ (P : Platform) where
  open P use {Double}

  -- The vectors have their back first. A function is its address in `closures`; a `Value` object has
  -- a value and the count `_references`.
  pub record Environment : Type 0 where
    pub local_values : List (Map Block ValueStore)
    pub global_values : ValueStore
    pub listener : Analyzer
    pub blocks : List Block
    pub functions : List ℕ
    pub closures : Map ℕ ValueStore
    pub values : Map ℕ (LuaValue Double × ℕ)
    pub gc : Gc P
    -- The tables and the functions behind their pointers, and the next address that is free.
    pub tables : Map ℕ (Table P)
    pub code : Map ℕ Code
    pub next : ℕ
    pub var_context : VarContext
    pub coming_from_for : Bool
    pub coming_from_funcall : Bool
    -- What was printed, line by line.
    pub output : List String

  unfoldable pub current_block : Environment → Block
  current_block s = elim s.blocks [ [] ↦ nullptr | b ∷ _ ↦ b ]

  unfoldable pub current_function : Environment → Option ℕ
  current_function s = elim s.functions [ [] ↦ none | f ∷ _ ↦ some f ]

  -- The loop over the blocks: the last one that has the name wins. `operator[]` leaves an empty store
  -- where there was none.
  unfoldable pub search_blocks :
      String → List Block → Map Block ValueStore → Option ℕ → Option ℕ × Map Block ValueStore
  search_blocks name [] m candidate = (candidate, m)
  search_blocks name (ctx ∷ contexts) m candidate =
      let store : ValueStore = at [] ctx m in
      search_blocks name contexts (touch [] ctx m) (latest candidate (find name store))

  unfoldable pub lookup_global :
      String → Bool → Environment → Result ((Option ℕ × Scope) × Environment)
  lookup_global name should_throw s = elim (find name s.global_values) [
    | none ↦ if should_throw then err nil_dot else ok ((none, global), s)
    | some a ↦ ok ((some a, global), s)
  ]

  -- After the blocks: the closure of the current function, then the global store.
  unfoldable pub lookup_outside :
      String → Bool → Environment → Result ((Option ℕ × Scope) × Environment)
  lookup_outside name should_throw s =
      let outside = lookup_global name should_throw s in
      elim (current_function s) [
        | none ↦ outside
        | some f ↦ elim (find f s.closures) [
          | none ↦ err undefined
          | some names ↦ elim (find name names) [
            | none ↦ outside
            | some a ↦ ok ((some a, closure), s)
          ]
        ]
      ]

  unfoldable pub lookup_name :
      String → Bool → Environment → Result ((Option ℕ × Scope) × Environment)
  lookup_name name should_throw s =
      let (contexts, listener') = get_context_for_local (current_block s) name s.listener in
      elim s.local_values [
        | [] ↦ elim contexts [
          | [] ↦ lookup_outside name should_throw (record s { listener = listener' })
          | _ ∷ _ ↦ err undefined
        ]
        | top ∷ below ↦
            let (candidate, top') = search_blocks name contexts top none in
            let s' = record s { listener = listener'; local_values = top' ∷ below } in
            elim candidate [
              | none ↦ lookup_outside name should_throw s'
              | some a ↦ ok ((some a, local), s')
            ]
      ]

  -- `Value::add_reference` and `Value::remove_reference` on an object, with its destructor.
  unfoldable pub retain : ℕ → Environment → Result Environment
  retain a s = elim (find a s.values) [
    | none ↦ err undefined
    | some (v, n) ↦ ok (record s { values = put a (v, add_value_reference n) s.values })
  ]

  -- The destructor of a function: it releases, by `rel`, what the closure of a Lua function holds.
  -- The function is gone then.
  unfoldable pub release_names :
      (ℕ → Environment → Result Environment) → ValueStore → Environment → Result Environment
  release_names rel [] s = ok s
  release_names rel ((name, a) ∷ store) s = rel a s >>= release_names rel store

  unfoldable pub destroy_function :
      (ℕ → Environment → Result Environment) → ℕ → Environment → Result Environment
  destroy_function rel f s = elim (find f s.code) [
    | none ↦ err undefined
    | some code ↦ elim code [
      | c builder ↦ ok (record s { code = erase f s.code })
      | pure formals body ↦ elim (find f s.closures) [
        | none ↦ err undefined
        | some names ↦
            release_names rel names
              (record s { code = erase f s.code; closures = erase f s.closures })
      ]
    ]
  ]

  -- The object is deleted if this was the last reference. A table's fields are copies, whose counts
  -- are not kept.
  unfoldable pub delete_object :
      (ℕ → Environment → Result Environment)
      → Bool
      → LuaValue Double
      → Environment
      → Result Environment
  delete_object rel true (function f) s = destroy_function rel f s
  delete_object rel _ v s = ok s

  -- `GC::remove_reference` with the destructor that `Deleter` runs.
  unfoldable pub drop_value :
      (ℕ → Environment → Result Environment) → LuaValue Double → Environment → Result Environment
  drop_value rel v s =
      let last : Bool = is_one (count_of P v s.gc.references) in
      remove_reference P v s.gc >>= λ g. delete_object rel last v (record s { gc = g })

  abbrev pub destroy :
      (ℕ → Environment → Result Environment)
      → ℕ
      → LuaValue Double
      → Environment
      → Result Environment
  destroy rel a v s =
      let s' = record s { values = erase a s.values } in
      if is_refcounted v then drop_value rel v s' else ok s'

  -- The fuel bounds how deep destructors nest.
  unfoldable pub release_within : ℕ → ℕ → Environment → Result Environment
  release_within zero a s = err out_of_fuel
  release_within (suc fuel) a s = elim (find a s.values) [
    | none ↦ err undefined
    | some (v, n) ↦ remove_value_reference n >>= λ left. elim left [
      | none ↦ destroy (release_within fuel) a v s
      | some n' ↦ ok (record s { values = put a (v, n') s.values })
    ]
  ]

  -- Each level deletes an object, so their number is enough.
  unfoldable pub release : ℕ → Environment → Result Environment
  release a s = release_within (suc (length s.values)) a s
