-- ===== src/Analyzer/Scope.antt =====
-- syntactic_analyzer.h: the elements of a block, and the scopes that hold them.
use luapp.Prelude.{ℕ, String, List, [], ◌∷◌}
use luapp.Prelude.Map.{Map}

-- A `BlockContext*`: the address of a block of the parse tree, and 0 for the null pointer.
abbrev pub Block : Type 0
Block = ℕ

abbrev pub nullptr : Block
nullptr = 0

-- std::variant<Goto, Label, Local, BlockContext*>.
pub data Element : Type 0 where
  goto : String → Element
  label : String → Element
  local : String → Element
  block : Block → Element

pub record Scope : Type 0 where
  pub scope_elements : Map Block (List Element)
  pub root_context : Block

-- The names of the locals among some elements, in their order.
abbrev pub locals : List Element → List String
locals [] = []
locals (local n ∷ es) = n ∷ locals es
locals (goto n ∷ es) = locals es
locals (label n ∷ es) = locals es
locals (block b ∷ es) = locals es
