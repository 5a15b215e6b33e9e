-- ===== src/Program.antt =====
-- environment.cpp, and of interpreter.cpp `launch` and the destructor: a file is read, parsed,
-- analysed and run. The file system, the parser and the printing of its trees are parameters.
pub mod Analysis
mod Tests
use Prim.Native.String.{◌++◌ as concat}
use luapp.Prelude.{
  ℕ, suc, eq_nat, String, List, [], ◌∷◌, Bool, true, false, Option, none, some, nat_eq,
  if◌then◌else◌, Error, Result, ok, err, runtime_error,
}
use luapp.Prelude.Map.{Map, put}
use luapp.Exceptions.{is_exception, what}
use luapp.Analyzer.Scope.{Block}
use luapp.Analyzer.Validate.{validate_scopes}
use luapp.Analyzer.Walk.{Forest, walk_chunk}
use luapp.Types.Platform.{Platform}
use luapp.Types.Var.{Var}
use luapp.Interpreter.Syntax.{ParseTree}
use luapp.Interpreter.Environment.{ValueStore, Environment, Code}
use luapp.Interpreter.Environment.Closing.{release_all}
use luapp.Interpreter.Machine.{
  Thrown, Outcome, done, thrown, error, break, goto, return, Action, ◌>>=◌, ◌>>◌, give, fail, lift,
  gets, modify, attempt, M,
}
use luapp.Interpreter.Operands.{print_line}
use luapp.Interpreter.Calls.{Host}
use luapp.Interpreter.Statements.{visit_chunk, register_global_c_function}

-- A chunk's tree, as the listener walks it and as the visitor reads it.
pub record Chunk : Type 0 where
  pub root : Block
  pub forest : Forest
  pub tree : ParseTree

pub record Frontend : Type 0 where
  -- The contents of a file, if it can be opened.
  pub contents : String → Option String
  -- `getNumberOfSyntaxErrors()` of a parser of some text that has parsed nothing yet.
  pub syntax_errors : String → ℕ
  pub chunk : String → Chunk
  pub to_string_tree : String → String
  -- `what()` of the exceptions of the C++ library.
  pub library : Error → String

module _ (P : Platform) where
  open P use {Double}

  -- The walk of the listener, then the checks; the fuel is that of the checks. What a walk that throws
  -- has changed of the listener is not followed.
  unfoldable pub launch : ℕ → Block → Forest → M P (Unit {0})
  launch fuel root forest = do
    s ← gets (λ s. s)
    a ← lift (walk_chunk root forest s.listener)
    modify λ t. record t { listener = a }
    lift (validate_scopes fuel a.scopes [])

  abbrev pub failure : Frontend → String → String → String
  failure F file text =
      concat (concat "Caught exception while processing file: " file)
        (concat (concat "\nWhat: " text) "\n")

  -- `catch (std::exception& e)`; the exceptions of the control flow have no text.
  unfoldable pub catch_exception : Frontend → String → M P (Unit {0}) → M P (Unit {0})
  catch_exception F file body s = elim (body s) [
    | done _ s' ↦ done tt s'
    | thrown x s' ↦ elim x [
      | error e ↦
          if is_exception e
          then fail (runtime_error (failure F file (what P F.library e))) s'
          else thrown (error e) s'
      | break ↦ fail (runtime_error (failure F file "")) s'
      | goto l ↦ fail (runtime_error (failure F file "")) s'
      | return vs ↦ fail (runtime_error (failure F file "")) s'
    ]
  ]

  -- The `try` of `run_file`.
  unfoldable pub run_chunk : Host Double → ℕ → Chunk → M P (Unit {0})
  run_chunk H fuel c =
      launch fuel c.root c.forest >> (visit_chunk P H c.tree fuel c.root >>= λ _. print_line P "OK")

  unfoldable pub run_contents : Frontend → Host Double → ℕ → String → String → M P (Unit {0})
  run_contents F H fuel file text =
      if nat_eq (F.syntax_errors text) 0
      then print_line P (F.to_string_tree text)
        >> catch_exception F file (run_chunk H fuel (F.chunk text))
      else fail
          (runtime_error (concat (concat "Errors encountered while processing file " file) "\n"))

  unfoldable pub run_file : Frontend → Host Double → ℕ → String → M P (Unit {0})
  run_file F H fuel file = elim (F.contents file) [
    | none ↦ print_line P (concat (concat "File " file) " not found.")
    | some text ↦ run_contents F H fuel file text
  ]

  -- `new Types::Function(builder)`: a C++ function, by the address of its builder.
  unfoldable pub new_c_function : ℕ → M P ℕ
  new_c_function builder s =
      done s.next (record s { code = put s.next (Code.c builder) s.code; next = suc s.next })

  unfoldable pub register_c_function : String → ℕ → M P (Unit {0})
  register_c_function name builder =
      new_c_function builder >>= λ f. register_global_c_function P name f

  -- The destructor of the interpreter: the names of the global store, then those of every block of
  -- every frame. The frames have their back first, where the source begins at the front.
  unfoldable pub release_stores : Map Block ValueStore → Environment P → Result (Environment P)
  release_stores [] s = ok s
  release_stores ((block, store) ∷ stores) s = elim (release_all P store s) [
    | err e ↦ err e
    | ok s' ↦ release_stores stores s'
  ]

  unfoldable pub release_frames :
      List (Map Block ValueStore) → Environment P → Result (Environment P)
  release_frames [] s = ok s
  release_frames (frame ∷ below) s = elim (release_frames below s) [
    | err e ↦ err e
    | ok s' ↦ release_stores frame s'
  ]

  unfoldable pub destroy_interpreter : Environment P → Result (Environment P)
  destroy_interpreter s = elim (release_all P s.global_values s) [
    | err e ↦ err e
    | ok s' ↦ release_frames s.local_values s'
  ]
