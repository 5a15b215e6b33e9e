-- ===== src/Program/Tests.antt =====
-- The run of a file whose block declares a label twice.
use luapp.Prelude.{[], ◌∷◌, some, none, false, eq_nat, eq_string, ok, err, refl, inl, arith}
use luapp.Prelude.Map.{find, put, erase}
use luapp.Analyzer.Scope.{Scope}
use luapp.Analyzer.Explore.{Tree, done, label_then, elements}
use luapp.Analyzer.State.{Analyzer, equal_range, at, touch, modify, with_current_scope}
use luapp.Analyzer.Listener.{
  init, enter_chunk, open_scope, enter_block, exit_block, enter_label, inherit_locals, remove,
}
use luapp.Analyzer.Walk.{Forest, leaf, label_node, walk_chunk, walk}
use luapp.Types.Halves.{halves}
use luapp.Interpreter.Syntax.{ParseTree, absent}
use luapp.Interpreter.Syntax
use luapp.Interpreter.Environment.{Environment, other}
use luapp.Interpreter.Calls.{Host}
use luapp.Program.{Chunk, Frontend}
use luapp.Program.Analysis.{IsRejected, run_file-rejects}

-- `::x:: ::x::`.
abbrev forest : Forest
forest = label_node "x" (label_node "x" leaf)

abbrev listened : Analyzer
listened = elim (walk_chunk 1 forest init) [ ok a ↦ a | err e ↦ init ]

abbrev twice : Tree
twice = label_then "x" (label_then "x" done)

abbrev scope : Scope
scope = record { scope_elements = (1, elements twice) ∷ []; root_context = 1 }

abbrev statement : Syntax.StatContext
statement = record {
  text = "::x::";
  exp = [];
  block = [];
  name = none;
  namelist = none;
  explist = none;
  attnamelist = none;
  funcname = none;
  funcbody = none;
  varlist = none;
  functioncall = none;
  label = some "x";
}

abbrev tree : ParseTree
tree = record {
  exp = λ e. Syntax.ExpContext.nil;
  text = λ e. "nil";
  stat = λ i. statement;
  block = λ b. record { stat = 0 ∷ 1 ∷ []; retstat = absent };
}

abbrev chunk : Chunk
chunk = record { root = 1; forest = forest; tree = tree }

abbrev frontend : Frontend
frontend = record {
  contents = λ f. some "::x:: ::x::";
  syntax_errors = λ t. 0;
  chunk = λ t. chunk;
  to_string_tree = λ t. "(chunk (block (stat (label :: x ::)) (stat (label :: x ::))))";
  library = λ e. "error";
}

abbrev host : Host halves.Double
host = record {
  Any = Unit;
  kinds = λ f. [];
  type_of = λ a. 0;
  conversions = [];
  run = λ f as'. ok tt;
}

abbrev fresh : Environment halves
fresh = record {
  local_values = [];
  global_values = [];
  listener = init;
  blocks = [];
  functions = [];
  closures = [];
  values = [];
  gc = record { references = []; deleted = [] };
  tables = [];
  code = [];
  next = 1;
  var_context = other;
  coming_from_for = false;
  coming_from_funcall = false;
  output = [];
}

run_file-rejects_example :
    IsRejected halves frontend host 5 "twice.lua" "::x:: ::x::" fresh listened
unfolding walk_chunk walk init enter_chunk open_scope enter_block exit_block enter_label
    inherit_locals equal_range at touch modify with_current_scope remove find put erase
run_file-rejects_example =
    run_file-rejects halves frontend host 5 "twice.lua" "::x:: ::x::" fresh listened refl refl refl
      ((scope, twice) ∷ []) refl (refl, tt, omega arith, tt, (λ b m n. m), tt)
      (λ h. h.0.0.0 (inl refl))
