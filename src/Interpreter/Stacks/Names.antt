-- ===== src/Interpreter/Stacks/Names.antt =====
-- interpreter.cpp: the look-up of names and of fields, and the naming of functions, keep the stacks.
use luapp.Prelude.{
  ℕ, List, String, [], ◌∷◌, Option, none, some, Bool, false, eq_nat, eq_string, inl, inr,
  Result-cases, Option-cases, Bool-cases, undefined, ◌≡◌, ◌⊎◌, refl,
}
use luapp.Prelude.Map.{find, put}
use luapp.Types.Platform.{Platform}
use luapp.Types.Value.{LuaValue, nil, table, function}
use luapp.Types.Table.{Ref, dot, subscript, slot, shared_nil}
use luapp.Types.Var.{Var, rvalue, lvalue, Place, object, deref}
use luapp.Interpreter.Syntax.{FuncbodyContext, FuncnameContext}
use luapp.Interpreter.Environment.{lookup_name}
use luapp.Interpreter.Machine.{heap, ◌>>=◌, ◌>>◌, new_value, modify, give, count_up}
use luapp.Interpreter.Functions.{
  Naming, dot_place, place_value, as_table, first_part, next_parts, name_parts, store_function,
  visit_funcname,
}
use luapp.Interpreter.Operands.{subscript_place, visit_name, in_varlist}
use luapp.Interpreter.Stacks.{Base, Keeps, still, >>=-Keeps, >>-Keeps}
use luapp.Interpreter.Stacks.Actions.{
  give-Keeps, fail-Keeps, read-Keeps, view-Keeps, modify-Keeps, child-Keeps, new_value-Keeps,
  new_function-Keeps, count_up-Keeps, close_function-Keeps,
}
use luapp.Interpreter.Stacks.Operands.{visit_funcbody-Keeps}
use luapp.Interpreter.Stacks.Looking.{lookup_name-Looks, within}

module _ {P : Platform} where
  open P use {Double}

  Ref-cases : (r : Ref P) → (r ≡ shared_nil) ⊎ ((k : LuaValue Double) × (r ≡ slot k))
  Ref-cases shared_nil = inl refl
  Ref-cases (slot k) = inr (k, refl)

  module _ {base : Base} where
    pub dot_place-Keeps : (t : ℕ) (name : String) (b : Bool) → Keeps base (dot_place P t name b)
    unfolding dot_place
    dot_place-Keeps t name b = still λ s. elim (Option-cases (find t s.tables)) [
      | inl e ↦ rw (dot_place, e) refl
      | inr (fields, e) ↦ elim (Ref-cases (dot P name b fields).0) [
        | inl r ↦ rw (dot_place, e, r) refl
        | inr (k, r) ↦ rw (dot_place, e, r) refl
      ]
    ]

    pub subscript_place-Keeps :
        (t : ℕ) (k : LuaValue Double) (b : Bool) → Keeps base (subscript_place P t k b)
    unfolding subscript_place
    subscript_place-Keeps t k b = still λ s. elim (Option-cases (find t s.tables)) [
      | inl e ↦ rw (subscript_place, e) refl
      | inr (fields, e) ↦ elim (Result-cases (subscript P k b fields)) [
        | inr (x, q) ↦ rw (subscript_place, e, q) refl
        | inl ((r, fields'), q) ↦ elim (Ref-cases r) [
          | inl p ↦ rw (subscript_place, e, q, p) refl
          | inr (j, p) ↦ rw (subscript_place, e, q, p) refl
        ]
      ]
    ]

    made :
        (name : String)
        → Keeps {P = P} {A = Var Double} base (
            new_value P nil >>= λ a.
            (modify λ t. record t { global_values = put name a t.global_values })
            >> give (lvalue (object a)))
    made name =
        >>=-Keeps (new_value-Keeps nil)
          λ a. >>-Keeps (modify-Keeps _ λ s. refl) (give-Keeps (lvalue (object a)))

    pub visit_name-Keeps : (name : String) → Keeps base (visit_name P name)
    unfolding visit_name
    visit_name-Keeps name = record {
      keeps = λ s w. elim (Result-cases (lookup_name P name false s)) [
        | inr (x, e) ↦ rw (visit_name, e) (inr w)
        | inl (((none, sc), t), e) ↦
            let v = within e (lookup_name-Looks name false s) w in
            elim (Bool-cases (in_varlist P t)) [
              | inl b ↦ rw (visit_name, e, b) ((made name).keeps t v)
              | inr b ↦ rw (visit_name, e, b) (inr v)
            ]
        | inl (((some a, sc), t), e) ↦
            let v = within e (lookup_name-Looks name false s) w in
            elim (Bool-cases (in_varlist P t)) [
              | inl b ↦ rw (visit_name, e, b) (inr v)
              | inr b ↦
                  rw (visit_name, e, b)
                    ((>>=-Keeps (read-Keeps (lvalue (object a))) λ x. give-Keeps (rvalue x)).keeps t
                      v)
            ]
      ];
    }

    first_part-Keeps :
        (alone : Bool) (part text : String) → Keeps base (first_part P alone part text)
    unfolding first_part
    first_part-Keeps alone part text = record {
      keeps = λ s w. elim (Result-cases (lookup_name P part false s)) [
        | inr (x, e) ↦ rw (first_part, e) (inr w)
        | inl (((none, sc), t), e) ↦
            let v = within e (lookup_name-Looks part false s) w in
            elim (Bool-cases alone) [
              | inl b ↦ rw (first_part, e, b) (inr v)
              | inr b ↦ rw (first_part, e, b) (inr v)
            ]
        | inl (((some a, sc), t), e) ↦
            rw (first_part, e) (inr (within e (lookup_name-Looks part false s) w))
      ];
    }

    pub place_value-Keeps : (p : Place Double) → Keeps base (place_value P p)
    place_value-Keeps p = view-Keeps λ s. deref (heap P s) p

    pub as_table-Keeps : (v : LuaValue Double) → Keeps base (as_table P v)
    as_table-Keeps (table t) = give-Keeps t
    as_table-Keeps v = fail-Keeps _

    next_parts-Keeps : (parts : List String) (n : Naming P) → Keeps base (next_parts P parts n)
    unfolding next_parts
    next_parts-Keeps [] n = give-Keeps n
    next_parts-Keeps (part ∷ parts) n =
        search
          (
            >>=-Keeps,
            child-Keeps,
            place_value-Keeps,
            as_table-Keeps,
            dot_place-Keeps,
            next_parts-Keeps parts,
          )
          depth 12

    name_parts-Keeps : (c : FuncnameContext) → Keeps base (name_parts P c)
    unfolding name_parts
    name_parts-Keeps c = named c.names
      where
        named : (names : List String) → Keeps base (name_parts P (record c { names = names }))
        named [] = give-Keeps _
        named (part ∷ parts) = search (>>=-Keeps, first_part-Keeps, next_parts-Keeps) depth 12

    as_global-Keeps :
        (f : ℕ) (name : String)
        → Keeps {P = P} base (
            new_value P (function f) >>= λ a.
            (modify λ s. record s { global_values = put name a s.global_values })
            >> count_up P (function f))
    as_global-Keeps f name =
        >>=-Keeps (new_value-Keeps (function f))
          λ a. >>-Keeps (modify-Keeps _ λ s. refl) (count_up-Keeps (function f))

    stored :
        (f : ℕ) (n : Naming P) (source : Option (Place Double)) (parent : Option ℕ)
        → Keeps base (store_function P f (record n { source = source; parent = parent }))
    unfolding store_function
    stored f n (some Place.shared_nil) none = fail-Keeps undefined
    stored f n (some Place.shared_nil) (some t) = still λ s. elim (Option-cases (find t s.tables)) [
      | inl e ↦ rw (store_function, e) refl
      | inr (fields, e) ↦ rw (store_function, e) refl
    ]
    stored f n (some (object a)) parent = as_global-Keeps f n.last_part
    stored f n (some (Place.field t k)) parent = as_global-Keeps f n.last_part
    stored f n none parent = as_global-Keeps f n.last_part

    pub visit_funcname-Keeps :
        (c : FuncnameContext) (body : FuncbodyContext) → Keeps base (visit_funcname P c body)
    unfolding visit_funcname
    visit_funcname-Keeps c body = >>=-Keeps (name_parts-Keeps c) λ n.
        >>=-Keeps (visit_funcbody-Keeps body) λ names.
          >>=-Keeps (new_function-Keeps names body.block)
            λ f. >>-Keeps (close_function-Keeps f body.block) (stored f n n.source n.parent)
