-- ===== src/Interpreter/Functions.antt =====
-- interpreter.cpp: the making of functions, `visitParlist`, `visitFuncbody`, `visitFunctiondef`,
-- `visitFuncname` and `process_local_function`.
use Prim.Native.String.{len, slice}
use text.Mathlib.Text.{starts_with}
use luapp.Prelude.{
  ℕ, ◌+◌, ◌-◌, String, List, [], ◌∷◌, ◌++◌, Bool, true, false, ◌&&◌, Option, none, some, ◌==◌,
  eq_nat, eq_string, leb, if◌then◌else◌, undefined, bad_dot_access, ok, err,
}
use luapp.Prelude.Map.{find, put}
use luapp.Types.Platform.{Platform}
use luapp.Types.Value.{LuaValue, table, function, type_as_string}
use luapp.Types.Table.{slot, shared_nil, dot, add_named_field}
use luapp.Types.Var.{Var, rvalue, Place, object, deref}
use luapp.Interpreter.Syntax.{ParlistContext, FuncbodyContext, FuncnameContext}
use luapp.Interpreter.Environment.{lookup_name, current_block}
use luapp.Interpreter.Environment.Closing.{close_function}
use luapp.Interpreter.Machine.{
  done, thrown, error, ◌>>=◌, ◌>>◌, give, fail, lift, gets, modify, attempt, child, M, heap,
  new_value, new_function, set_local, count_up,
}

module _ (P : Platform) where
  open P use {Double}

  -- The last three characters of the text.
  abbrev pub ends_with_dots : String → Bool
  ends_with_dots text = leb 3 (len text) && (slice text (len text - 3) (len text) == "...")

  unfoldable pub visit_parlist : ParlistContext → M P (List String)
  visit_parlist c =
      if starts_with c.text "..."
      then give ("..." ∷ [])
      else do nl ← child c.namelist; give (if ends_with_dots c.text then nl ++ "..." ∷ [] else nl)

  unfoldable pub visit_funcbody : FuncbodyContext → M P (List String)
  visit_funcbody c = elim c.parlist [ none ↦ give [] | some p ↦ visit_parlist p ]

  unfoldable pub visit_functiondef : FuncbodyContext → M P (Var Double)
  visit_functiondef c = do
    names ← visit_funcbody c
    f ← new_function P names c.block
    attempt (close_function P f c.block)
    count_up P (function f)
    give (rvalue (function f))

  -- The parameter list is visited without a test that there is one.
  unfoldable pub process_local_function : String → FuncbodyContext → M P (Unit {0})
  process_local_function name body = do
    p ← child body.parlist
    names ← visit_parlist p
    f ← new_function P names body.block
    attempt (close_function P f body.block)
    a ← new_value P (function f)
    count_up P (function f)
    block ← gets (current_block P)
    attempt (set_local P block name a)

  -- The loop over the parts of a function's name: `source`, `table`, `full_name` and `last_part`.
  pub record Naming : Type 0 where
    pub source : Option (Place Double)
    pub parent : Option ℕ
    pub full_name : String
    pub last_part : String

  -- What `dot` of the table at an address refers to; without `set_nil` the table stays as it is.
  unfoldable pub dot_place : ℕ → String → Bool → M P (Place Double)
  dot_place t name set_nil s = elim (find t s.tables) [
    | none ↦ thrown (error undefined) s
    | some fields ↦
        let (r, fields') = dot P name set_nil fields in
        let s' = record s { tables = put t fields' s.tables } in
        elim r [ shared_nil ↦ done Place.shared_nil s' | slot k ↦ done (Place.field t k) s' ]
  ]

  abbrev pub place_value : Place Double → M P (LuaValue Double)
  place_value p s = lift (deref (heap P s) p) s

  -- The value as a table's address; another value throws.
  abbrev pub as_table : LuaValue Double → M P ℕ
  as_table (table t) = give t
  as_table v = fail (bad_dot_access (type_as_string v))

  -- One part; the flag tells whether the name has no other part. `none` ends the loop.
  unfoldable pub first_part : Bool → String → String → M P Naming
  first_part alone part text s = elim (lookup_name P part false s) [
    | err e ↦ thrown (error e) s
    | ok ((found, _), s') ↦ elim found [
      | none ↦
          if alone
          then done
              (record {
                source = none;
                parent = none;
                full_name = slice text 0 (len part);
                last_part = text;
              })
              s'
          else thrown (error undefined) s'
      | some a ↦
          done
            (record {
              source = some (object a);
              parent = none;
              full_name = slice text 0 (len part);
              last_part = text;
            })
            s'
    ]
  ]

  unfoldable pub next_parts : List String → Naming → M P Naming
  next_parts [] n = give n
  next_parts (part ∷ parts) n = do
    place ← child n.source
    v ← place_value place
    t ← as_table v
    place' ← dot_place t part false
    next_parts parts (record {
      source = some place';
      parent = some t;
      full_name = slice n.full_name 0 (len part + 1);
      last_part = n.full_name;
    })

  unfoldable pub name_parts : FuncnameContext → M P Naming
  name_parts c = elim c.names [
    | [] ↦ give (record { source = none; parent = none; full_name = c.text; last_part = "" })
    | part ∷ parts ↦
        first_part (elim parts [ [] ↦ true | _ ∷ _ ↦ false ]) part c.text >>= next_parts parts
  ]

  unfoldable pub store_function : ℕ → Naming → M P (Unit {0})
  store_function f n =
      let as_global : M P (Unit {0}) = (do
        a ← new_value P (function f)
        modify λ s. record s { global_values = put n.last_part a s.global_values }
        count_up P (function f)) in
      elim n.source [
        | some Place.shared_nil ↦ elim n.parent [
          | none ↦ fail undefined
          | some t ↦ λ s. elim (find t s.tables) [
            | none ↦ thrown (error undefined) s
            | some fields ↦ count_up P (function f) (record s {
              tables = put t (add_named_field P n.last_part (function f) fields) s.tables;
            })
          ]
        ]
        | _ ↦ as_global
      ]

  unfoldable pub visit_funcname : FuncnameContext → FuncbodyContext → M P (Unit {0})
  visit_funcname c body = do
    n ← name_parts c
    names ← visit_funcbody body
    f ← new_function P names body.block
    attempt (close_function P f body.block)
    store_function f n
