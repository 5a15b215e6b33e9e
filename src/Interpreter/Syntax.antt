-- ===== src/Interpreter/Syntax.antt =====
-- The parse tree, as far as interpreter.cpp reads it through the accessors of antlr. A missing child
-- is `none`. Expressions, blocks and statements are the pointers of their nodes.
use luapp.Prelude.{ℕ, String, List, Option}
use luapp.Analyzer.Scope.{Block}

-- The kinds of token that a number or a text is made of; `missing` is for a node with none.
pub data NumberContext : Type 0 where
  int : String → NumberContext
  hex : String → NumberContext
  float : String → NumberContext
  hex_float : String → NumberContext
  missing : NumberContext

pub data StringContext : Type 0 where
  normal : String → StringContext
  char : String → StringContext
  long : String → StringContext
  missing : StringContext

-- A parameter list: its text, and the names of its namelist.
pub record ParlistContext : Type 0 where
  pub text : String
  pub namelist : Option (List String)

pub record FuncbodyContext : Type 0 where
  pub parlist : Option ParlistContext
  pub block : Block

pub record FieldContext : Type 0 where
  pub text : String
  pub name : Option String
  pub exp : List ℕ

pub data ArgsContext : Type 0 where
  explist : List ℕ → ArgsContext
  tableconstructor : List FieldContext → ArgsContext
  string : StringContext → ArgsContext
  nothing : ArgsContext

pub record NameAndArgsContext : Type 0 where
  pub name : Option String
  pub args : ArgsContext

pub data SuffixContext : Type 0 where
  dot : String → SuffixContext
  subscript : ℕ → SuffixContext

pub record VarSuffixContext : Type 0 where
  pub name_and_args : List NameAndArgsContext
  pub suffix : SuffixContext

pub data HeadContext : Type 0 where
  name : String → HeadContext
  exp : ℕ → HeadContext

pub record VarNode : Type 0 where
  pub head : HeadContext
  pub var_suffix : List VarSuffixContext

pub data VarOrExpContext : Type 0 where
  var_ : VarNode → VarOrExpContext
  exp : ℕ → VarOrExpContext

-- A prefix expression, and a function call, which has the same children.
pub record PrefixexpContext : Type 0 where
  pub var_or_exp : VarOrExpContext
  pub name_and_args : List NameAndArgsContext

-- An operator is its text.
pub data ExpContext : Type 0 where
  nil : ExpContext
  true_ : ExpContext
  false_ : ExpContext
  dots : ExpContext
  number : NumberContext → ExpContext
  string : StringContext → ExpContext
  functiondef : FuncbodyContext → ExpContext
  prefixexp : PrefixexpContext → ExpContext
  tableconstructor : List FieldContext → ExpContext
  power : ℕ → ℕ → ExpContext
  unary : String → ℕ → ExpContext
  mul_div_mod : String → ℕ → ℕ → ExpContext
  add_sub : String → ℕ → ℕ → ExpContext
  strcat : ℕ → ℕ → ExpContext
  comparison : String → ℕ → ℕ → ExpContext
  and_ : ℕ → ℕ → ExpContext
  or_ : ℕ → ℕ → ExpContext
  bitwise : String → ℕ → ℕ → ExpContext
  invalid : ExpContext

pub record FuncnameContext : Type 0 where
  pub text : String
  pub names : List String

-- A statement's text has its tokens with no space between; so has that of its label.
pub record StatContext : Type 0 where
  pub text : String
  pub exp : List ℕ
  pub block : List Block
  pub name : Option String
  pub namelist : Option (List String)
  pub explist : Option (List ℕ)
  pub attnamelist : Option (List String)
  pub funcname : Option FuncnameContext
  pub funcbody : Option FuncbodyContext
  pub varlist : Option (List VarNode)
  pub functioncall : Option PrefixexpContext
  pub label : Option String

-- The expressions of `return`, if the block ends with one that has some.
pub data RetstatContext : Type 0 where
  absent : RetstatContext
  bare : RetstatContext
  explist : List ℕ → RetstatContext

pub record BlockContext : Type 0 where
  pub stat : List ℕ
  pub retstat : RetstatContext

pub record ParseTree : Type 0 where
  pub exp : ℕ → ExpContext
  -- `getText()` of an expression.
  pub text : ℕ → String
  pub stat : ℕ → StatContext
  pub block : Block → BlockContext
