-- ===== src/Interpreter/Infrastructure.antt =====
-- interpreter.cpp: `funcall_test_infrastructure`, the calls that the visitor of calls takes for
-- itself, whatever their name is bound to.
pub mod Failing
use Prim.Native.String.{◌++◌ as concat}
use luapp.Prelude.{
  ℕ, String, List, [], ◌∷◌, Bool, true, false, not, ◌&&◌, ◌||◌, ◌==◌, eq_nat, eq_string,
  if◌then◌else◌, elem, nat_eq, length, undefined, runtime_error, bad_type, value_equality_expected,
  type_equality_expected, bad_variant_access,
}
use luapp.Prelude.Map.{Map}
use luapp.Analyzer.Scope.{Block}
use luapp.Analyzer.State.{at, touch}
use luapp.Prelude.Int.{pos}
use luapp.Types.Platform.{Platform}
use luapp.Types.Value.{LuaValue, string, index, type_as_string, is_refcounted}
use luapp.Types.Coerce.{value_as_string}
use luapp.Types.Var.{Var, var_equal, lvalue, object}
use luapp.Interpreter.Syntax.{
  ArgsContext, NameAndArgsContext, HeadContext, VarOrExpContext, PrefixexpContext,
}
use luapp.Interpreter.Environment.{ValueStore, current_block}
use luapp.Interpreter.Loops.{get_store, set_store}
use luapp.Interpreter.Machine.{
  done, thrown, error, break, goto, return, ◌>>=◌, ◌>>◌, give, fail, lift, gets, modify, attempt,
  child_at, M, heap, read,
}
use luapp.Interpreter.Operands.{nth, print_line}

abbrev pub allowed_names : List String
allowed_names =
    "ensure_value_type" ∷ "expect_failure" ∷ "print" ∷ "globals" ∷ "locals" ∷ "memory" ∷ []

-- The names of types that `ensure_value_type` knows, and the test of a value against one of them.
abbrev pub type_names : List String
type_names = "int" ∷ "double" ∷ "string" ∷ "table" ∷ "bool" ∷ "nil" ∷ []

-- A type that is named, and that the value is not of; the numbers are those of the variant.
unfoldable pub mismatched : {D : Type 0} → String → LuaValue D → Bool
mismatched name v =
    let i = index v in
    name == "int" && not (nat_eq i 1)
    || name == "double" && not (nat_eq i 2)
    || name == "string" && not (nat_eq i 3)
    || name == "table" && not (nat_eq i 8)
    || name == "bool" && not (nat_eq i 0)
    || name == "nil" && not (nat_eq i 4)

module _ (P : Platform) where
  open P use {Double}

  -- The expressions of the first argument list.
  unfoldable pub arguments : List NameAndArgsContext → M P (List ℕ)
  arguments [] = fail undefined
  arguments (c ∷ cs) = elim c.args [ ArgsContext.explist es ↦ give es | _ ↦ fail undefined ]

  abbrev pub as_text : LuaValue Double → M P String
  as_text (string t) = give t
  as_text v = fail bad_variant_access

  -- `!middle.is_refcounted() && left != middle`: the comparison is made only where it is needed.
  unfoldable pub differ : LuaValue Double → Var Double → Var Double → M P Bool
  differ middle leftV middleV s =
      if is_refcounted middle
      then done false s
      else (lift (var_equal P (heap P s) leftV middleV) >>= λ b. give (not b)) s

  unfoldable pub check_type : String → String → LuaValue Double → M P (Unit {0})
  check_type expression name left =
      if not (elem name type_names)
      then fail (runtime_error (concat "Invalid type in ensure_type " name))
      else if mismatched name left
      then fail (type_equality_expected expression name (type_as_string left))
      else give tt

  -- Only a type error is caught.
  unfoldable pub catch_bad_type : String → M P (Var Double) → M P (Unit {0})
  catch_bad_type expression body s =
      let failed = concat "Failure expected in expression " expression in
      let caught = concat (concat "Expression " expression) " rightfully triggered a type error" in
      elim (body s) [
        | done _ s' ↦ thrown (error (runtime_error failed)) s'
        | thrown x s' ↦ elim x [
          | error e ↦ elim e [ bad_type _ _ _ ↦ print_line P caught s' | e' ↦ thrown (error e') s' ]
          | break ↦ thrown break s'
          | goto l ↦ thrown (goto l) s'
          | return vs ↦ thrown (return vs) s'
        ]
      ]

  -- The lines of a store, each after `indent`, in the order of its list.
  unfoldable pub list_store : String → ValueStore → M P (Unit {0})
  list_store indent [] = give tt
  list_store indent ((name, a) ∷ store) = do
    v ← read P (lvalue (object a))
    print_line P (concat (concat (concat indent name) ": ") (value_as_string P v))
    list_store indent store

  unfoldable pub list_globals : String → M P (Unit {0})
  list_globals indent = do
    print_line P "Globals: "
    globals ← gets (λ s. s.global_values)
    list_store indent globals
    print_line P ""

  unfoldable pub list_locals : M P (Unit {0})
  list_locals = do
    print_line P "Locals (top block): "
    block ← gets (current_block P)
    store ← (λ s. lift (get_store P block s) s)
    attempt (set_store P block store)
    list_store "" store
    print_line P ""

  -- The blocks of one frame, in a frame's own store of them; the blocks come from the back.
  unfoldable pub list_blocks : List Block → Map Block ValueStore → M P (Map Block ValueStore)
  list_blocks [] frame = give frame
  list_blocks (b ∷ below) frame = do
    frame' ← list_blocks below frame
    print_line P (concat "\tBlock " (P.show_int (pos (length below))))
    let store : ValueStore = at [] b frame' in list_store "\t\t" store >> give (touch [] b frame')

  unfoldable pub list_frames : List (Map Block ValueStore) → M P (List (Map Block ValueStore))
  list_frames [] = give []
  list_frames (frame ∷ below) = do
    below' ← list_frames below
    print_line P (concat (concat "Locals (Frame " (P.show_int (pos (length below)))) "): ")
    blocks ← gets (λ s. s.blocks)
    frame' ← list_blocks blocks frame
    give (frame' ∷ below')

  unfoldable pub list_memory : M P (Unit {0})
  list_memory = do
    list_globals "\t"
    frames ← gets (λ s. s.local_values)
    frames' ← list_frames frames
    modify λ s. record s { local_values = frames' }

module _ (P : Platform) (text : ℕ → String) (visit_exp : ℕ → M P (Var P.Double)) where
  open P use {Double}

  unfoldable pub ensure_value_type : List ℕ → M P (Unit {0})
  ensure_value_type es = do
    e ← child_at 0 es
    leftV ← visit_exp e
    middleV ← nth P visit_exp 1 es
    rightV ← nth P visit_exp 2 es
    middle ← read P middleV
    different ← differ P middle leftV middleV
    left ← read P leftV
    elim different [
      | true ↦
          fail
            (value_equality_expected (text e) (value_as_string P middle) (value_as_string P left))
      | false ↦ (do right ← read P rightV; name ← as_text P right; check_type P (text e) name left)
    ]

  unfoldable pub expect_failure : List ℕ → M P (Unit {0})
  expect_failure es = child_at 0 es >>= λ e. catch_bad_type P (text e) (visit_exp e)

  unfoldable pub print : List ℕ → M P (Unit {0})
  print es = do x ← nth P visit_exp 0 es; v ← read P x; print_line P (value_as_string P v)

  unfoldable pub test_call : String → List NameAndArgsContext → M P (Unit {0})
  test_call name cs =
      if name == "ensure_value_type"
      then (arguments P cs >>= ensure_value_type)
      else if name == "expect_failure"
      then (arguments P cs >>= expect_failure)
      else if name == "print"
      then (arguments P cs >>= print)
      else if name == "globals"
      then list_globals P ""
      else if name == "locals"
      then list_locals P
      else list_memory P

  unfoldable pub funcall_test_infrastructure : PrefixexpContext → M P Bool
  funcall_test_infrastructure c = elim c.var_or_exp [
    | VarOrExpContext.exp _ ↦ give false
    | VarOrExpContext.var_ v ↦ elim v.head [
      | HeadContext.exp _ ↦ fail undefined
      | HeadContext.name n ↦
          if elem n allowed_names then (test_call n c.name_and_args >> give true) else give false
    ]
  ]
