-- ===== src/Analyzer/Tests.antt =====
-- The theorems about the analyzer at concrete scopes.
use luapp.Prelude.{
  ◌↔◌, In, String, List, [], ◌∷◌, reverse, ◌≡◌, refl, ◌↔◌, ◌⊎◌, Result, ok, err, Error,
  crossed_local, invisible_label, label_already_defined, arith, none, some, false,
}
use luapp.Prelude.Map.{find}
use luapp.Analyzer.Validate.{search_levels, scan_level}
use luapp.Analyzer.Scope.{Block, Element, goto, label, local, block, Scope}
use luapp.Analyzer.State.{StatContext, Analyzer}
use luapp.Analyzer.Listener.{init}
use luapp.Analyzer.Validate.{validate_goto, explore_context, validate_labels, validate_scopes}
use luapp.Analyzer.Visible.{Visible, Crossing, AbsentAll, validate_goto_lem}
use luapp.Analyzer.Explore.{
  Tree, done, goto_then, label_then, block_then, elements, GotosOk, explore_context_lem,
}
use luapp.Analyzer.Labels.{blocks, Distinct, InsideDistinct, own_labels, validate_labels_lem}
use luapp.Analyzer.Program.{scopes_of, AllLegal, validate_scopes_lem}
use luapp.Analyzer.Walk.{Forest, leaf, block_node, stat_node, label_node, walk_chunk}
use luapp.Analyzer.Walk.Post.{IsListenerError}
use luapp.Analyzer.Walk.Balance.{walk_chunk_lem}

-- `do goto x; local a; ::x:: end` in a block that declares the label as well.
abbrev levels : List (List Element)
levels = (block 2 ∷ label "x" ∷ []) ∷ (goto "x" ∷ local "a" ∷ label "x" ∷ []) ∷ []

abbrev goto_text : Result (Unit {0})
goto_text = validate_goto levels "x"

validate_goto_example :
    ((goto_text ≡ ok tt) ↔ Visible "x" (reverse levels))
    × ((names : List String)
        → (goto_text ≡ err (crossed_local "x" names)) ↔ Crossing "x" names (reverse levels))
    × ((goto_text ≡ err (invisible_label "x")) ↔ AbsentAll "x" (reverse levels))
validate_goto_example = validate_goto_lem levels "x"

goto_crosses : goto_text ≡ err (crossed_local "x" ("a" ∷ []))
unfolding validate_goto search_levels scan_level
goto_crosses = refl

-- `do goto x end ::x::`.
abbrev tree : Tree
tree = block_then 2 (goto_then "x" done) (label_then "x" done)

abbrev scope : Scope
scope = record { scope_elements = (1, elements tree) ∷ (2, goto "x" ∷ []) ∷ []; root_context = 1 }

explore_context_example : (explore_context 2 scope 1 [] [] ≡ ok tt) ↔ GotosOk tree [] []
unfolding find
explore_context_example = explore_context_lem scope 1 tree 2 refl (refl, tt, tt) (omega arith)

validate_labels_example :
    ((seen : List Block) × (validate_labels 2 scope 1 [] ≡ ok seen)
      × ((b : Block) → In b seen ↔ (In b (1 ∷ []) ⊎ In b (blocks tree)))
      × Distinct (own_labels tree)
      × InsideDistinct tree)
    ⊎ ((l : String) × (validate_labels 2 scope 1 [] ≡ err (label_already_defined l))
        × (Distinct (own_labels tree) × InsideDistinct tree → ⊥))
unfolding find
validate_labels_example =
    validate_labels_lem scope 1 tree 2 [] refl (refl, tt, tt) (omega arith)
      ((λ m. m), (λ m. m), (λ c m n. m), tt, tt) (λ b m n. ground arith)

abbrev break_stat : StatContext
break_stat = record {
  text = "break";
  line = 7;
  name = none;
  has_funcbody = false;
  attnamelist = none;
  funcname = none;
  label_name = none;
  has_explist = false;
  namelist = none;
  blocks = [];
}

-- A block with a label and a break outside every loop.
abbrev forest : Forest
forest = block_node 2 (label_node "x" leaf) (stat_node break_stat leaf leaf)

walk_chunk_example :
    ((t : Analyzer) × (walk_chunk 1 forest init ≡ ok t)
      × (t.blocks ≡ [])
      × (t.blocks_relations ≡ [])
      × (t.stack_scopes ≡ 0 ∷ [])
      × (t.current_scope ≡ some 0))
    ⊎ ((e : Error) × (walk_chunk 1 forest init ≡ err e) × IsListenerError e)
walk_chunk_example = walk_chunk_lem 1 forest

validate_scopes_example :
    (validate_scopes 2 (scopes_of ((scope, tree) ∷ [])) [] ≡ ok tt) ↔ AllLegal ((scope, tree) ∷ [])
unfolding find
validate_scopes_example = validate_scopes_lem 2 ((scope, tree) ∷ []) (
  refl,
  (refl, tt, tt),
  omega arith,
  ((λ m. m), (λ m. m), (λ c m n. m), tt, tt),
  (λ b m n. ground arith),
  tt,
)
