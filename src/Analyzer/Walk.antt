-- ===== src/Analyzer/Walk.antt =====
-- The walk of the listener over a parse tree, and what it leaves in the stacks.
pub mod Post
pub mod Balance
use luapp.Prelude.{
  ℕ, String, List, [], ◌∷◌, ◌++◌, Option, none, some, Bool, true, false, ◌==◌, eq_nat, nat_eq_iff,
  if◌then◌else◌, ◌≡◌, refl, ◌≢◌, Result, ok, err, Error, runtime_error, undefined, lonely_break,
  ◌>>=◌, arith,
}
use luapp.Analyzer.Scope.{Block, Element, goto, label, local, block, Scope}
use luapp.Analyzer.State.{
  StatContext, FuncbodyContext, Analyzer, modify, with_current_scope, push_element, touch_elements,
  add_element,
}
use luapp.Analyzer.Listener.{
  enter_chunk, enter_block, exit_block, enter_stat, enter_funcbody, exit_funcbody, enter_label,
  last?, drop_last,
}

-- A parse tree as far as the listener answers to its nodes. `ParseTreeWalker` enters a node, walks
-- its children from left to right, and exits the node; nodes of other kinds have empty callbacks.
pub data Forest : Type 0 where
  leaf : Forest
  block_node : Block → Forest → Forest → Forest
  stat_node : StatContext → Forest → Forest → Forest
  funcbody_node : FuncbodyContext → Forest → Forest → Forest
  label_node : String → Forest → Forest

unfoldable pub walk : Forest → Analyzer → Result Analyzer
walk leaf s = ok s
walk (block_node b inside next) s = do
  s₁ ← enter_block b s
  s₂ ← walk inside s₁
  s₃ ← exit_block b s₂
  walk next s₃
walk (stat_node c inside next) s = do s₁ ← enter_stat c s; s₂ ← walk inside s₁; walk next s₂
walk (funcbody_node c inside next) s = do
  s₁ ← enter_funcbody c s
  s₂ ← walk inside s₁
  s₃ ← exit_funcbody s₂
  walk next s₃
walk (label_node n next) s = do s₁ ← enter_label n s; walk next s₁

-- `enterChunk`, then the chunk's block.
unfoldable pub walk_chunk : Block → Forest → Analyzer → Result Analyzer
walk_chunk root inside s = enter_chunk root s >>= walk (block_node root inside leaf)

-- The stacks are the same, and the current scope is the top of the stack of scopes.
pub record SameStacks (s t : Analyzer) : Type 0 where
  pub blocks : t.blocks ≡ s.blocks
  pub relations : t.blocks_relations ≡ s.blocks_relations
  pub scopes : t.stack_scopes ≡ s.stack_scopes
  pub current : t.current_scope ≡ s.current_scope
