-- ===== src/Analyzer/Listener.antt =====
-- syntactic_analyzer.cpp: the callbacks of the walk over the parse tree.
use text.Mathlib.Text.{starts_with}
use luapp.Prelude.{
  String, List, [], ◌∷◌, ◌++◌, Option, none, some, Bool, true, false, not, ◌||◌, ◌==◌, eq_nat,
  eq_string, if◌then◌else◌, Result, ok, err, undefined, runtime_error, lonely_break, ◌>>=◌, elem,
  length,
}
use luapp.Prelude.Map.{Map, find, put}
use luapp.Analyzer.Scope.{Block, nullptr, goto, label, local, block}
use luapp.Analyzer.State.{
  StatContext, FuncbodyContext, BlocksPerLocal, Analyzer, top, at, touch, with_current_scope,
  touch_elements, add_element,
}

unfoldable pub init : Analyzer
init = record {
  current_context = nullptr;
  blocks = [];
  scopes = [];
  stack_scopes = [];
  current_scope = none;
  loop_blocks = [];
  label_to_context = [];
  locals_per_block = [];
  blocks_relations = [];
  functions_parents = [];
}

abbrev pub last? : List Block → Option Block
last? [] = none
last? (b ∷ []) = some b
last? (b ∷ c ∷ bs) = last? (c ∷ bs)

abbrev pub drop_last : List Block → List Block
drop_last [] = []
drop_last (b ∷ []) = []
drop_last (b ∷ c ∷ bs) = b ∷ drop_last (c ∷ bs)

-- A new scope at the end of `_scopes`, on top of the stack and current, with `root` for its root.
unfoldable pub open_scope : Block → Analyzer → Analyzer
open_scope root s = record s {
  scopes = s.scopes ++ record { scope_elements = []; root_context = root } ∷ [];
  stack_scopes = length s.scopes ∷ s.stack_scopes;
  current_scope = some (length s.scopes);
}

unfoldable pub enter_chunk : Block → Analyzer → Result Analyzer
enter_chunk root s = with_current_scope (touch_elements root) (open_scope root s)

-- The locals that a block sees when it is entered: those of the block around it, after those that
-- a for or a parameter list declared for it in advance.
unfoldable pub inherit_locals : Block → Analyzer → Map Block BlocksPerLocal
inherit_locals ctx s = elim (last? s.blocks_relations) [
  | none ↦ touch [] ctx s.locals_per_block
  | some parent ↦
      let m = touch [] parent s.locals_per_block in
      elim (find ctx s.locals_per_block) [
        | some own ↦ put ctx (own ++ at [] parent m) m
        | none ↦ put ctx (at [] parent m) m
      ]
]

unfoldable pub enter_block : Block → Analyzer → Result Analyzer
enter_block ctx s = do
  let pushed = record s { blocks = ctx ∷ s.blocks }
  s₁ ← if s.current_context == nullptr then ok pushed else add_element (block ctx) pushed
  s₂ ← with_current_scope (touch_elements ctx) s₁
  ok (record s₂ {
    current_context = ctx;
    locals_per_block = inherit_locals ctx s₂;
    blocks_relations = s₂.blocks_relations ++ ctx ∷ [];
  })

-- `std::set::erase` by value.
unfoldable pub remove : Block → List Block → List Block
remove b [] = []
remove b (c ∷ cs) = let rest = remove b cs in if c == b then rest else c ∷ rest

abbrev pub top_or_null : List Block → Block
top_or_null [] = nullptr
top_or_null (b ∷ bs) = b

unfoldable pub exit_block : Block → Analyzer → Result Analyzer
exit_block ctx s = elim s.blocks [
  | [] ↦ err undefined
  | top ∷ below ↦
      if not (top == ctx)
      then err (runtime_error "Unbalanced blocks")
      else ok (record s {
        blocks = below;
        current_context = top_or_null below;
        loop_blocks = remove ctx s.loop_blocks;
        blocks_relations = drop_last s.blocks_relations;
      })
]

-- `std::set::insert`, and `_locals_per_block[where].insert(…)`.
abbrev pub add_loop : Block → Analyzer → Analyzer
add_loop b s = record s {
  loop_blocks = if elem b s.loop_blocks then s.loop_blocks else b ∷ s.loop_blocks;
}

abbrev pub add_local : String → Block → Analyzer → Analyzer
add_local n b s = record s {
  locals_per_block = put b (at [] b s.locals_per_block ++ (n, b) ∷ []) s.locals_per_block;
}

unfoldable pub add_locals : List String → Block → Analyzer → Analyzer
add_locals [] b s = s
add_locals (n ∷ ns) b s = add_locals ns b (add_local n b s)

-- What `local` does for each name: an element of the scope, and a local of the current block.
unfoldable pub declare_locals : List String → Block → Analyzer → Result Analyzer
declare_locals [] here s = ok s
declare_locals (n ∷ ns) here s =
    add_element (local n) s >>= λ s₁. declare_locals ns here (add_local n here s₁)

-- The tests by which `enterStat` goes on at all.
unfoldable pub is_relevant : StatContext → Bool
is_relevant c =
    starts_with c.text "local"
    || starts_with c.text "function"
    || starts_with c.text "local function"
    || starts_with c.text "goto"
    || starts_with c.text "break"
    || starts_with c.text "for"
    || starts_with c.text "repeat"
    || starts_with c.text "while"
    || elim c.label_name [ none ↦ false | some _ ↦ true ]

-- A child that has to be there: the source follows the pointer.
abbrev pub deref {ℓ} : {A : Type ℓ} → Option A → Result A
deref none = err undefined
deref (some a) = ok a

abbrev pub first_block : StatContext → Result Block
first_block c = elim c.blocks [ [] ↦ err undefined | b ∷ bs ↦ ok b ]

unfoldable pub enter_local : StatContext → Analyzer → Result Analyzer
enter_local c s = do
  here ← deref (last? s.blocks_relations)
  if c.has_funcbody
      then (deref c.name >>= λ n. declare_locals (n ∷ []) here s)
      else (deref c.attnamelist >>= λ ns. declare_locals ns here s)

unfoldable pub enter_for : StatContext → Analyzer → Result Analyzer
enter_for c s = do
  body ← first_block c
  if c.has_explist
      then (deref c.namelist >>= λ ns. ok (add_locals ns body (add_loop body s)))
      else (deref c.name >>= λ n. ok (add_local n body (add_loop body s)))

unfoldable pub enter_label_stat : String → Analyzer → Analyzer
enter_label_stat l s = record s {
  label_to_context =
      put l (at [] l s.label_to_context ++ s.current_context ∷ []) s.label_to_context;
}

-- The branches from the label on.
unfoldable pub enter_rest : StatContext → Analyzer → Result Analyzer
enter_rest c s = elim c.label_name [
  | some l ↦ ok (enter_label_stat l s)
  | none ↦
      if starts_with c.text "for"
      then enter_for c s
      else if starts_with c.text "while" || starts_with c.text "repeat"
      then (first_block c >>= λ b. ok (add_loop b s))
      else elim s.loop_blocks [ [] ↦ err (lonely_break c.line) | _ ∷ _ ↦ ok s ]
]

unfoldable pub enter_stat : StatContext → Analyzer → Result Analyzer
enter_stat c s =
    if not (is_relevant c)
    then ok s
    else if starts_with c.text "goto"
    then (deref c.name >>= λ l. add_element (goto l) s)
    else if starts_with c.text "local"
    then enter_local c s
    else if starts_with c.text "function"
    then (deref c.funcname >>= λ n. add_element (local n) s)
    else enter_rest c s

-- Every block in which the function stands, from the outermost on.
abbrev pub parents : Block → List Block → List (Block × Block)
parents body [] = []
parents body (b ∷ bs) = (body, b) ∷ parents body bs

unfoldable pub enter_funcbody : FuncbodyContext → Analyzer → Result Analyzer
enter_funcbody c s =
    let named : Analyzer = elim c.params [ none ↦ s | some ns ↦ add_locals ns c.body s ] in
    let s₁ = record named {
      functions_parents = named.functions_parents ++ parents c.body named.blocks_relations;
    } in
    let s₂ = open_scope c.body s₁ in ok (record s₂ { current_context = nullptr })

unfoldable pub exit_funcbody : Analyzer → Result Analyzer
exit_funcbody s = elim s.stack_scopes [
  | [] ↦ err undefined
  | _ ∷ below ↦ ok (record s { stack_scopes = below; current_scope = top below })
]

unfoldable pub enter_label : String → Analyzer → Result Analyzer
enter_label n s = add_element (label n) s

unfoldable pub is_associated_with_label : Block → String → Analyzer → Bool
is_associated_with_label ctx l s = elim (find l s.label_to_context) [
  | none ↦ false
  | some contexts ↦ elem ctx contexts
]
