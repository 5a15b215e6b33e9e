-- ===== src/Analyzer/State.antt =====
-- syntactic_analyzer.h: the state of the listener, and the nodes of the parse tree that it reads.
use luapp.Prelude.{
  ℕ, zero, suc, String, List, [], ◌∷◌, ◌++◌, Option, none, some, Bool, Eq, ◌==◌, if◌then◌else◌,
  Result, ok, err, undefined, eq_nat,
}
use luapp.Prelude.Map.{Map, find, put}
use luapp.Analyzer.Scope.{Block, Element, Scope}

-- What the listener reads of a statement: its text (the tokens with no space between), its line, and
-- those of its children that are there. An antlr accessor gives null for a child that is missing.
pub record StatContext : Type 0 where
  pub text : String
  pub line : ℕ
  pub name : Option String
  pub has_funcbody : Bool
  pub attnamelist : Option (List String)
  pub funcname : Option String
  pub label_name : Option String
  pub has_explist : Bool
  pub namelist : Option (List String)
  pub blocks : List Block

-- A function's body: the names of its parameter list, if it has one, and its block.
pub record FuncbodyContext : Type 0 where
  pub params : Option (List String)
  pub body : Block

-- A multimap keeps its entries in order of insertion among equal keys, so it is the list of its
-- entries; `equal_range` filters them by their key.
abbrev pub Multimap : Type 0 → Type 0 → Type 0
Multimap K V = List (K × V)

abbrev pub BlocksPerLocal : Type 0
BlocksPerLocal = Multimap String Block

unfoldable pub equal_range : {K V : Type 0} ⦃e : Eq K⦄ → K → Multimap K V → List V
equal_range k [] = []
equal_range k ((j, v) ∷ m) = let rest = equal_range k m in if j == k then v ∷ rest else rest

-- The stacks have their top first; the vector `blocks_relations` and the list `scopes` grow at
-- their end. A `Scope*` is the scope's position in `scopes`.
pub record Analyzer : Type 0 where
  pub current_context : Block
  pub blocks : List Block
  pub scopes : List Scope
  pub stack_scopes : List ℕ
  pub current_scope : Option ℕ
  pub loop_blocks : List Block
  pub label_to_context : Map String (List Block)
  pub locals_per_block : Map Block BlocksPerLocal
  pub blocks_relations : List Block
  pub functions_parents : Multimap Block Block

abbrev pub top : List ℕ → Option ℕ
top [] = none
top (i ∷ is) = some i

-- `operator[]` of a map: the value of a key, after a default one is stored where there is none.
unfoldable pub at : {K V : Type 0} ⦃e : Eq K⦄ → V → K → Map K V → V
at d k m = elim (find k m) [ some v ↦ v | none ↦ d ]

unfoldable pub touch : {K V : Type 0} ⦃e : Eq K⦄ → V → K → Map K V → Map K V
touch d k m = elim (find k m) [ some v ↦ m | none ↦ put k d m ]

-- `_scopes[i]` with `f` done to it, if there is such a scope.
unfoldable pub modify : {A : Type 0} → (A → A) → ℕ → List A → Option (List A)
modify f i [] = none
modify f zero (x ∷ xs) = some (f x ∷ xs)
modify f (suc i) (x ∷ xs) = elim (modify f i xs) [ none ↦ none | some ys ↦ some (x ∷ ys) ]

-- A change to `*_current_scope`.
unfoldable pub with_current_scope : (Scope → Scope) → Analyzer → Result Analyzer
with_current_scope f s = elim s.current_scope [
  | none ↦ err undefined
  | some i ↦ elim (modify f i s.scopes) [
    | none ↦ err undefined
    | some scopes' ↦ ok (record s { scopes = scopes' })
  ]
]

-- `_scope_elements[ctx].push_back(element)`, and `_scope_elements[ctx]` alone.
abbrev pub push_element : Block → Element → Scope → Scope
push_element ctx e sc = record sc {
  scope_elements = put ctx (at [] ctx sc.scope_elements ++ e ∷ []) sc.scope_elements;
}

abbrev pub touch_elements : Block → Scope → Scope
touch_elements ctx sc = record sc { scope_elements = touch [] ctx sc.scope_elements }

-- `_current_scope->_scope_elements[_current_context].push_back(element)`.
abbrev pub add_element : Element → Analyzer → Result Analyzer
add_element e s = with_current_scope (push_element s.current_context e) s
