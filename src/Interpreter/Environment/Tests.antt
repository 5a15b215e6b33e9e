-- ===== src/Interpreter/Environment/Tests.antt =====
-- The theorems about names at a block inside another, both with a local `x`.
use luapp.Prelude.{◌≡◌, ok, [], ◌∷◌, true, false, eq_nat, eq_string, refl}
use luapp.Prelude.Int.{pos}
use luapp.Prelude.Map.{Map, find, put, erase}
use luapp.Analyzer.Scope.{Block}
use luapp.Analyzer.State.{Analyzer, at, equal_range}
use luapp.Analyzer.Listener.{init}
use luapp.Types.Value.{int, nil, function, is_refcounted}
use luapp.Types.Gc.{
  remove_value_reference, remove_reference, remove_counted, count_of, drop_count, same_key,
}
use luapp.Types.Halves.{halves}
use luapp.Interpreter.Environment.{
  ValueStore, Environment, Code, other, current_function, release, release_within, drop_value,
  delete_object, destroy_function, release_names,
}
use luapp.Interpreter.Environment.Lookup.{Looked, lookup_name_lem}
use luapp.Interpreter.Environment.Closing.{close_function}
use luapp.Interpreter.Environment.Closing.Shadowing.{ClosedOver, entries, close_function_lem}

abbrev stores : Map Block ValueStore
stores = (1, ("x", 10) ∷ []) ∷ (2, ("x", 11) ∷ []) ∷ []

-- The function 7 has the body 3, inside block 2, which is inside block 1.
abbrev analyzed : Analyzer
analyzed = record init {
  locals_per_block = (2, ("x", 1) ∷ ("x", 2) ∷ []) ∷ [];
  functions_parents = (3, 1) ∷ (3, 2) ∷ [];
}

abbrev shadowed : Environment halves
shadowed = record {
  local_values = stores ∷ [];
  global_values = [];
  listener = analyzed;
  blocks = 2 ∷ 1 ∷ [];
  functions = [];
  closures = (7, []) ∷ [];
  values = (10, (nil, 1)) ∷ (11, (int (pos 5), 1)) ∷ [];
  gc = record { references = []; deleted = [] };
  tables = [];
  code = (7, Code.pure [] 3) ∷ [];
  next = 20;
  var_context = other;
  coming_from_for = false;
  coming_from_funcall = false;
  output = [];
}

lookup_name_example : Looked halves "x" true shadowed stores []
unfolding current_function
lookup_name_example = lookup_name_lem halves "x" true shadowed stores [] refl (λ f e. cc)

close_function_example :
    ClosedOver halves 7
      (entries (equal_range 3 analyzed.functions_parents) stores)
      []
      (close_function halves 7 3 shadowed)
unfolding find at equal_range
close_function_example =
    close_function_lem halves 7 3 [] shadowed stores [] refl refl ((λ e. cc), ((λ e. cc), tt))

-- The object 10 holds the function 7 alone, whose closure holds the object 11.
abbrev captured : Environment halves
captured = record shadowed {
  closures = (7, ("y", 11) ∷ []) ∷ [];
  values = (10, (function 7, 1)) ∷ (11, (int (pos 5), 1)) ∷ [];
  gc = record { references = (function 7, 1) ∷ []; deleted = [] };
}

abbrev cleared : Environment halves
cleared = record captured {
  closures = [];
  code = [];
  values = [];
  gc = record { references = []; deleted = function 7 ∷ [] };
}

captured_released : release halves 10 captured ≡ ok cleared
unfolding release release_within remove_value_reference drop_value remove_reference remove_counted
    count_of drop_count same_key delete_object destroy_function release_names find put erase
    is_refcounted
captured_released = refl
