-- ===== src/Interpreter/Calls.antt =====
-- interpreter.cpp: `call_function`, `ArgsVisitor` and `process_names_and_args`. `visit_block` is the
-- visitor of blocks.
pub mod Binding
use luapp.Prelude.{
  ℕ, String, List, [], ◌∷◌, ◌++◌, true, false, Option, none, some, back?, ◌==◌, eq_nat, eq_string,
  if◌then◌else◌, Result, undefined, bad_call,
}
use luapp.Prelude.Map.{find}
use luapp.Analyzer.Scope.{Block}
use luapp.Types.Platform.{Platform}
use luapp.Types.Value.{LuaValue, nil, elipsis, function, of_list, type_as_string}
use luapp.Types.Var.{Var, rvalue, list}
use luapp.CFunctions.Convert.{Kind, Conversions, Held}
use luapp.CFunctions.Curried.{call_c_function}
use luapp.Interpreter.Environment.{Code, current_block}
use luapp.Interpreter.Environment.Closing.{stabilize_blocks}
use luapp.Interpreter.Machine.{
  done, thrown, error, break, goto, return, ◌>>=◌, ◌>>◌, give, fail, lift, gets, modify, attempt,
  map_all, M, read, new_value, set_local, count_up,
}
use luapp.Interpreter.Functions.{place_value, as_table, dot_place}

-- The C++ functions that are registered, by the addresses of their builders: the kinds of their
-- parameters, the conversions of the converter with the types of what they give, and what the function does, which may throw.
pub record Host (D : Type 0) : Type 1 where
  pub Any : Type 0
  pub kinds : ℕ → List Kind
  pub type_of : Any → ℕ
  pub conversions : Conversions D Any
  pub run : ℕ → List (Held Any) → Result (Unit {0})

-- The arguments of a call, as `visitArgs` gives them.
pub data Args (D : Type 0) : Type 0 where
  vars : List (Var D) → Args D
  table_constructor : Var D → Args D
  string_literal : Var D → Args D

pub record NameAndArgs (D : Type 0) : Type 0 where
  pub name : Option String
  pub args : Args D

module _ (P : Platform) where
  open P use {Double}

  abbrev pub bind_parameter : Block → String → LuaValue Double → M P (Unit {0})
  bind_parameter ctx name v = do a ← new_value P v; attempt (set_local P ctx name a)

  -- What is left of the arguments when every parameter has one.
  unfoldable pub bind_rest : Block → List String → List (LuaValue Double) → M P (Unit {0})
  bind_rest ctx formals rest = elim (back? formals) [
    | none ↦ fail undefined
    | some last ↦
        if last == "..." then bind_parameter ctx "..." (elipsis (of_list rest)) else give tt
  ]

  -- The parameters still to bind, with `formals` all of them.
  unfoldable pub bind_parameters :
      Block → List String → List String → List (LuaValue Double) → M P (Unit {0})
  bind_parameters ctx formals [] [] = give tt
  bind_parameters ctx formals [] (v ∷ vs) = bind_rest ctx formals (v ∷ vs)
  bind_parameters ctx formals (p ∷ ps) [] = do
    bind_parameter ctx p nil
    bind_parameters ctx formals ps []
  bind_parameters ctx formals (p ∷ ps) (v ∷ vs) = do
    a ← new_value P v
    count_up P v
    attempt (set_local P ctx p a)
    bind_parameters ctx formals ps vs

  -- `_functions.pop_back(); _local_values.pop_back();`
  unfoldable pub pop_frame : M P (Unit {0})
  pop_frame s = elim s.functions [
    | [] ↦ thrown (error undefined) s
    | _ ∷ fs ↦ elim s.local_values [
      | [] ↦ thrown (error undefined) s
      | _ ∷ below ↦ done tt (record s { functions = fs; local_values = below })
    ]
  ]

  -- The `try` around the visit of the body; only Return is caught.
  unfoldable pub catch_return : Block → M P (Unit {0}) → M P (List (Var Double))
  catch_return current body s = elim (body s) [
    | done _ s' ↦ (pop_frame >> give []) s'
    | thrown x s' ↦ elim x [
      | return vs ↦ (do attempt (stabilize_blocks P current); pop_frame; give vs) s'
      | error e ↦ thrown (error e) s'
      | break ↦ thrown break s'
      | goto l ↦ thrown (goto l) s'
    ]
  ]

  -- `ArgsVisitor`.
  unfoldable pub visit_arguments : Args Double → M P (List (LuaValue Double))
  visit_arguments (vars xs) = map_all (read P) xs
  visit_arguments (table_constructor x) = read P x >>= λ v. give (v ∷ [])
  visit_arguments (string_literal x) = read P x >>= λ v. give (v ∷ [])

  -- The value as a function's address; another value throws.
  abbrev pub as_function : LuaValue Double → M P ℕ
  as_function (function f) = give f
  as_function v = fail (bad_call (type_as_string v))

  -- The function that is called, and the table that it gets with the `:` notation.
  unfoldable pub callee : Option String → Var Double → M P (ℕ × List (LuaValue Double))
  callee none result = do v ← read P result; f ← as_function v; give (f, [])
  callee (some name) result = do
    v ← read P result
    t ← as_table P v
    place ← dot_place P t name false
    w ← place_value P place
    f ← as_function w
    give (f, v ∷ [])

  abbrev pub as_result : List (LuaValue Double) → Var Double
  as_result [] = rvalue nil
  as_result (v ∷ vs) = list (v ∷ vs)

  module _ (H : Host Double) (visit_block : Block → M P (Unit {0})) where
    -- `call_c_function` with the C++ function itself.
    unfoldable pub call_builder : ℕ → List (LuaValue Double) → M P (List (Var Double))
    call_builder b vs = do
      args ← lift (call_c_function H.type_of H.conversions (H.kinds b) vs)
      lift (H.run b args)
      give []

    unfoldable pub call_body :
        ℕ → List String → Block → List (LuaValue Double) → M P (List (Var Double))
    call_body f formals ctx vs = do
      current ← gets (current_block P)
      modify λ s. record s {
        blocks = ctx ∷ s.blocks;
        local_values = [] ∷ s.local_values;
        functions = f ∷ s.functions;
      }
      bind_parameters ctx formals formals vs
      modify λ s. record s { coming_from_funcall = true }
      catch_return current (visit_block ctx)

    unfoldable pub call_function : ℕ → List (LuaValue Double) → M P (List (Var Double))
    call_function f vs s = elim (find f s.code) [
      | none ↦ thrown (error undefined) s
      | some code ↦ elim code [
        | Code.c b ↦ call_builder b vs s
        | Code.pure formals ctx ↦ call_body f formals ctx vs s
      ]
    ]

    unfoldable pub process_names_and_args :
        Var Double → List (NameAndArgs Double) → M P (Var Double)
    process_names_and_args result [] = give result
    process_names_and_args result (c ∷ cs) = do
      (f, self) ← callee c.name result
      arguments ← visit_arguments c.args
      results ← call_function f (self ++ arguments)
      vs ← map_all (read P) results
      process_names_and_args (as_result vs) cs
