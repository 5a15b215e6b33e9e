-- ===== src/Analyzer/Validate.antt =====
-- syntactic_analyzer.cpp: the checks made after the walk, `validate_gotos` and its parts.
-- A pair of iterators (position, end) is the list of the elements from that position on.
use luapp.Prelude.{
  ℕ, zero, suc, String, List, [], ◌∷◌, ◌++◌, reverse, Bool, true, false, none, some, Result, ok,
  err, crossed_local, invisible_label, label_already_defined, runtime_error, undefined, out_of_fuel,
  ◌>>=◌, ◌>>◌, elem, ◌==◌, eq_nat, eq_string, if◌then◌else◌,
}
use luapp.Prelude.Map.{find}
use luapp.Analyzer.Scope.{Block, Element, goto, label, local, block, Scope}

abbrev pub met_label : String → List String → Result Bool
met_label sought [] = ok true
met_label sought (n ∷ crossed) = err (crossed_local sought (n ∷ crossed))

-- The inner loop of `validate_goto`: true once the label is met, and an exception if locals were
-- declared before it.
unfoldable pub scan_level : String → List Element → List String → Result Bool
scan_level sought [] crossed = ok false
scan_level sought (local n ∷ es) crossed = scan_level sought es (crossed ++ n ∷ [])
scan_level sought (label n ∷ es) crossed =
    let rest = scan_level sought es crossed in
    if n == sought then met_label sought crossed else rest
scan_level sought (goto n ∷ es) crossed = scan_level sought es crossed
scan_level sought (block b ∷ es) crossed = scan_level sought es crossed

-- The outer loop, from the innermost block outwards.
unfoldable pub search_levels : String → List (List Element) → Result (Unit {0})
search_levels sought [] = err (invisible_label sought)
search_levels sought (es ∷ levels) =
    let outer = search_levels sought levels in
    scan_level sought es [] >>= λ found. if found then ok tt else outer

unfoldable pub validate_goto : List (List Element) → String → Result (Unit {0})
validate_goto previous sought = search_levels sought (reverse previous)

-- The loop of `explore_context` over the elements of a block; `enter` is the recursive call.
unfoldable pub explore_elements :
    (Block → List String → List (List Element) → Result (Unit {0}))
    → List Element
    → List String
    → List (List Element)
    → Result (Unit {0})
explore_elements enter [] labels iters = ok tt
explore_elements enter (goto l ∷ es) labels iters =
    let rest = explore_elements enter es labels iters in
    (if elem l labels then ok tt else validate_goto (iters ++ (goto l ∷ es) ∷ []) l) >> rest
explore_elements enter (label l ∷ es) labels iters =
    explore_elements enter es (labels ++ l ∷ []) iters
explore_elements enter (block c ∷ es) labels iters =
    let rest = explore_elements enter es labels iters in
    enter c labels (iters ++ (block c ∷ es) ∷ []) >> rest
explore_elements enter (local n ∷ es) labels iters = explore_elements enter es labels iters

-- The fuel bounds how deep blocks nest.
unfoldable pub explore_context :
    ℕ → Scope → Block → List String → List (List Element) → Result (Unit {0})
explore_context zero scope ctx previous_labels previous = err out_of_fuel
explore_context (suc fuel) scope ctx previous_labels previous =
    elim (find ctx scope.scope_elements) [
      | none ↦ err (runtime_error "Unable to find context")
      | some vec ↦ explore_elements (explore_context fuel scope) vec previous_labels previous
    ]

-- The loop of `validate_labels`; it hands on `seen_contexts`, which the source takes by reference.
unfoldable pub label_elements :
    (Block → List Block → Result (List Block))
    → List Element
    → List String
    → List Block
    → Result (List Block)
label_elements enter [] labels seen = ok seen
label_elements enter (label l ∷ es) labels seen =
    let rest = label_elements enter es (l ∷ labels) seen in
    if elem l labels then err (label_already_defined l) else rest
label_elements enter (block b ∷ es) labels seen =
    (if elem b seen then ok seen else enter b seen) >>= label_elements enter es labels
label_elements enter (goto l ∷ es) labels seen = label_elements enter es labels seen
label_elements enter (local n ∷ es) labels seen = label_elements enter es labels seen

unfoldable pub validate_labels : ℕ → Scope → Block → List Block → Result (List Block)
validate_labels zero scope ctx seen = err out_of_fuel
validate_labels (suc fuel) scope ctx seen = elim (find ctx scope.scope_elements) [
  | none ↦ err undefined
  | some elements ↦ label_elements (validate_labels fuel scope) elements [] (ctx ∷ seen)
]

-- The loop of `validate_gotos` over the scopes.
unfoldable pub validate_scopes : ℕ → List Scope → List Block → Result (Unit {0})
validate_scopes fuel [] seen = ok tt
validate_scopes fuel (scope ∷ scopes) seen = do
  seen' ← validate_labels fuel scope scope.root_context seen
  explore_context fuel scope scope.root_context [] []
  validate_scopes fuel scopes seen'
