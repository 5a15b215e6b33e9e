-- ===== src/Interpreter/Operands.antt =====
-- interpreter.cpp: the visitors of numbers, strings, names, table constructors and arguments.
-- `visit_exp` is the visitor of the expressions behind pointers.
use Prim.Native.String.{len, slice}
use text.Mathlib.Text.{starts_with}
use luapp.Prelude.{
  ℕ, suc, ◌-◌, String, List, [], ◌∷◌, ◌++◌, Bool, true, false, Option, none, some, back?, eq_nat,
  eq_string, if◌then◌else◌, ok, err, undefined, runtime_error, map,
}
use luapp.Prelude.Int.{pos}
use luapp.Prelude.Map.{find, put}
use luapp.Types.Platform.{Platform}
use luapp.Types.Value.{LuaValue, int, double, string, nil, elipsis, table, values}
use luapp.Types.Table.{slot, shared_nil, subscript, make}
use luapp.Types.Var.{Var, rvalue, lvalue, list, Place, object}
use luapp.Interpreter.Syntax.{
  NumberContext, StringContext, FieldContext, ArgsContext, NameAndArgsContext,
}
use luapp.Interpreter.Environment.{Environment, varlist, other, lookup_name, current_block}
use luapp.Interpreter.Machine.{
  done, thrown, error, ◌>>=◌, ◌>>◌, give, fail, lift, gets, modify, attempt, child_at, map_all, M,
  read, new_value, new_table, find_local, set_local, count_up,
}
use luapp.Interpreter.Calls.{Args, vars, table_constructor, string_literal, NameAndArgs}

module _ (P : Platform) where
  open P use {Double, stoi, stoi_16, stod}

  abbrev pub print_line : String → M P (Unit {0})
  print_line line = modify λ s. record s { output = s.output ++ line ∷ [] }

  unfoldable pub visit_number : NumberContext → M P (Var Double)
  visit_number (NumberContext.int t) = lift (stoi t) >>= λ i. give (rvalue (int i))
  visit_number (NumberContext.hex t) = lift (stoi_16 t) >>= λ i. give (rvalue (int i))
  visit_number (NumberContext.float t) = lift (stod t) >>= λ d. give (rvalue (double d))
  visit_number (NumberContext.hex_float t) = do
    print_line "[NYI] Hexfloat"
    d ← lift (stod t)
    give (rvalue (double d))
  visit_number NumberContext.missing = fail (runtime_error "Invalid number")

  -- The text without its first and its last character.
  abbrev pub unquoted : String → String
  unquoted t = slice t 1 (len t - 1)

  unfoldable pub visit_string : StringContext → M P (Var Double)
  visit_string (StringContext.normal t) = give (rvalue (string (unquoted t)))
  visit_string (StringContext.char t) = give (rvalue (string (unquoted t)))
  visit_string (StringContext.long t) = print_line "[NYI] Longstring" >> give (rvalue (string t))
  visit_string StringContext.missing = fail (runtime_error "Invalid string")

  -- What `subscript` of the table at an address refers to.
  unfoldable pub subscript_place : ℕ → LuaValue Double → Bool → M P (Place Double)
  subscript_place t k set_nil s = elim (find t s.tables) [
    | none ↦ thrown (error undefined) s
    | some fields ↦ elim (subscript P k set_nil fields) [
      | err e ↦ thrown (error e) s
      | ok (r, fields') ↦
          let s' = record s { tables = put t fields' s.tables } in
          elim r [ shared_nil ↦ done Place.shared_nil s' | slot j ↦ done (Place.field t j) s' ]
    ]
  ]

  -- `_var__context == VarNode::VARLIST`.
  abbrev pub in_varlist : Environment P → Bool
  in_varlist s = elim s.var_context [ varlist ↦ true | other ↦ false ]

  -- Outside a varlist the shared nil is copied, lest it be overwritten.
  unfoldable pub field_var : Place Double → Environment P → Var Double
  field_var Place.shared_nil s = if in_varlist s then lvalue Place.shared_nil else rvalue nil
  field_var p s = lvalue p

  unfoldable pub visit_name : String → M P (Var Double)
  visit_name name s = elim (lookup_name P name false s) [
    | err e ↦ thrown (error e) s
    | ok ((found, _), s') ↦ elim found [
      | some a ↦
          if in_varlist s'
          then done (lvalue (object a)) s'
          else (read P (lvalue (object a)) >>= λ v. give (rvalue v)) s'
      | none ↦
          if in_varlist s'
          then (do
            a ← new_value P nil
            modify λ t. record t { global_values = put name a t.global_values }
            give (lvalue (object a)))
              s'
          else done (rvalue nil) s'
    ]
  ]

  abbrev pub is_nil : LuaValue Double → Bool
  is_nil nil = true
  is_nil _ = false

  -- The entry of a field, if it makes one, and the next index. A field without a key takes the index.
  unfoldable pub keyed_field :
      ℕ → Option (Var Double) → Var Double → M P (List (LuaValue Double × LuaValue Double) × ℕ)
  keyed_field i (some k) x = do
    key ← read P k
    if is_nil key then give ([], i) else (read P x >>= λ v. give ((key, v) ∷ [], i))
  keyed_field i none x = do
    v ← read P x
    give (if is_nil v then ([], suc i) else ((int (pos i), v) ∷ [], suc i))

  -- `operator[]` of the current block's store on "...": a null pointer where there is none.
  unfoldable pub visit_dots : M P (Var Double)
  visit_dots = do
    block ← gets (current_block P)
    found ← (λ s. lift (find_local P block "..." s) s)
    elim found [
      | some a ↦ give (lvalue (object a))
      | none ↦ attempt (set_local P block "..." 0) >> give (lvalue (object 0))
    ]

  module _ (visit_exp : ℕ → M P (Var Double)) where
    unfoldable pub visit_explist : List ℕ → M P (List (Var Double))
    visit_explist es = map_all visit_exp es

    abbrev pub nth : ℕ → List ℕ → M P (Var Double)
    nth i es = child_at i es >>= visit_exp

    unfoldable pub visit_field : FieldContext → M P (Option (Var Double) × Var Double)
    visit_field c =
        if starts_with c.text "["
        then (do k ← nth 0 c.exp; v ← nth 1 c.exp; give (some k, v))
        else elim c.name [
          | some n ↦ nth 0 c.exp >>= λ v. give (some (rvalue (string n)), v)
          | none ↦ nth 0 c.exp >>= λ v. give (none, v)
        ]

    unfoldable pub visit_fieldlist :
        ℕ → List FieldContext → M P (List (LuaValue Double × LuaValue Double))
    visit_fieldlist i [] = give []
    visit_fieldlist i (c ∷ cs) = do
      (k, x) ← visit_field c
      (entry, i') ← keyed_field i k x
      rest ← visit_fieldlist i' cs
      give (entry ++ rest)

    unfoldable pub visit_tableconstructor : List FieldContext → M P (Var Double)
    visit_tableconstructor fields = do
      entries ← visit_fieldlist 1 fields
      t ← new_table P (make P entries)
      count_up P (table t)
      give (rvalue (table t))

    -- The values that the last argument has beside its own, which the argument itself still goes before.
    abbrev pub remains_of : Var Double → LuaValue Double → List (LuaValue Double)
    remains_of last (elipsis vs) = values vs
    remains_of (list vs) v = vs
    remains_of last v = []

    unfoldable pub visit_args : ArgsContext → M P (Args Double)
    visit_args (ArgsContext.explist es) = do
      xs ← visit_explist es
      elim (back? xs) [
        | none ↦ give (vars xs)
        | some last ↦ read P last >>= λ v. give (vars (xs ++ map rvalue (remains_of last v)))
      ]
    visit_args (ArgsContext.tableconstructor fields) =
        visit_tableconstructor fields >>= λ x. give (table_constructor x)
    visit_args (ArgsContext.string c) = visit_string c >>= λ x. give (string_literal x)
    visit_args ArgsContext.nothing = give (vars [])

    unfoldable pub visit_name_and_args : NameAndArgsContext → M P (NameAndArgs Double)
    visit_name_and_args c = visit_args c.args >>= λ a. give (record { name = c.name; args = a })
