-- ===== src/Interpreter/Operators/Symbols.antt =====
-- Each operator is read from its own symbol and from no other text.
use luapp.Prelude.{String, eq_string, ◌≡◌, ◌≢◌, ◌↔◌, arith}
use text.Mathlib.TextEquality.{eq_iff}
use luapp.Interpreter.Operators.{
  OperatorComparison, OperatorAddSub, OperatorMulDivMod, OperatorBitwise, OperatorUnary,
  visit_operator_comparison, visit_operator_add_sub, visit_operator_mul_div_mod,
  visit_operator_bitwise, visit_operator_unary,
}

-- The symbols of the grammar; the case `error` has none, and stands for every other text.
abbrev pub IsComparison : OperatorComparison → String → Type 0
IsComparison OperatorComparison.lower_s s = s ≡ "<"
IsComparison OperatorComparison.greater_s s = s ≡ ">"
IsComparison OperatorComparison.lower_e s = s ≡ "<="
IsComparison OperatorComparison.greater_e s = s ≡ ">="
IsComparison OperatorComparison.diff s = s ≡ "~="
IsComparison OperatorComparison.eq s = s ≡ "=="
IsComparison OperatorComparison.error s =
    (s ≢ "<") × (s ≢ ">") × (s ≢ "<=") × (s ≢ ">=") × (s ≢ "~=") × (s ≢ "==")

abbrev pub IsMulDivMod : OperatorMulDivMod → String → Type 0
IsMulDivMod OperatorMulDivMod.mul s = s ≡ "*"
IsMulDivMod OperatorMulDivMod.div s = s ≡ "/"
IsMulDivMod OperatorMulDivMod.modulo s = s ≡ "%"
IsMulDivMod OperatorMulDivMod.quot s = s ≡ "//"
IsMulDivMod OperatorMulDivMod.error s = (s ≢ "*") × (s ≢ "/") × (s ≢ "%") × (s ≢ "//")

abbrev pub IsAddSub : OperatorAddSub → String → Type 0
IsAddSub OperatorAddSub.add s = s ≡ "+"
IsAddSub OperatorAddSub.sub s = s ≡ "-"
IsAddSub OperatorAddSub.error s = (s ≢ "+") × (s ≢ "-")

abbrev pub IsBitwise : OperatorBitwise → String → Type 0
IsBitwise OperatorBitwise.and s = s ≡ "&"
IsBitwise OperatorBitwise.or s = s ≡ "|"
IsBitwise OperatorBitwise.xor s = s ≡ "~"
IsBitwise OperatorBitwise.lshift s = s ≡ "<<"
IsBitwise OperatorBitwise.rshift s = s ≡ ">>"
IsBitwise OperatorBitwise.error s = (s ≢ "&") × (s ≢ "|") × (s ≢ "~") × (s ≢ "<<") × (s ≢ ">>")

abbrev pub IsUnary : OperatorUnary → String → Type 0
IsUnary OperatorUnary.negation s = s ≡ "not"
IsUnary OperatorUnary.bang s = s ≡ "#"
IsUnary OperatorUnary.minus s = s ≡ "-"
IsUnary OperatorUnary.bin_not s = s ≡ "~"
IsUnary OperatorUnary.error s = (s ≢ "not") × (s ≢ "#") × (s ≢ "-") × (s ≢ "~")

visit_operator_comparison-IsComparison : (s : String) → IsComparison (visit_operator_comparison s) s
unfolding visit_operator_comparison
visit_operator_comparison-IsComparison s =
    ground (
      arith,
      eq_iff s "<",
      eq_iff s ">",
      eq_iff s "<=",
      eq_iff s ">=",
      eq_iff s "~=",
      eq_iff s "==",
    )

comparison_of :
    (s : String) (op : OperatorComparison) → IsComparison op s → visit_operator_comparison s ≡ op
unfolding visit_operator_comparison
comparison_of s OperatorComparison.lower_s h = rw h
comparison_of s OperatorComparison.greater_s h = rw h
comparison_of s OperatorComparison.lower_e h = rw h
comparison_of s OperatorComparison.greater_e h = rw h
comparison_of s OperatorComparison.diff h = rw h
comparison_of s OperatorComparison.eq h = rw h
comparison_of s OperatorComparison.error h =
    ground (
      arith,
      eq_iff s "<",
      eq_iff s ">",
      eq_iff s "<=",
      eq_iff s ">=",
      eq_iff s "~=",
      eq_iff s "==",
    )

visit_operator_mul_div_mod-IsMulDivMod : (s : String) → IsMulDivMod (visit_operator_mul_div_mod s) s
unfolding visit_operator_mul_div_mod
visit_operator_mul_div_mod-IsMulDivMod s =
    ground (arith, eq_iff s "*", eq_iff s "/", eq_iff s "%", eq_iff s "//")

mul_div_mod_of :
    (s : String) (op : OperatorMulDivMod) → IsMulDivMod op s → visit_operator_mul_div_mod s ≡ op
unfolding visit_operator_mul_div_mod
mul_div_mod_of s OperatorMulDivMod.mul h = rw h
mul_div_mod_of s OperatorMulDivMod.div h = rw h
mul_div_mod_of s OperatorMulDivMod.modulo h = rw h
mul_div_mod_of s OperatorMulDivMod.quot h = rw h
mul_div_mod_of s OperatorMulDivMod.error h =
    ground (arith, eq_iff s "*", eq_iff s "/", eq_iff s "%", eq_iff s "//")

visit_operator_add_sub-IsAddSub : (s : String) → IsAddSub (visit_operator_add_sub s) s
unfolding visit_operator_add_sub
visit_operator_add_sub-IsAddSub s = ground (arith, eq_iff s "+", eq_iff s "-")

add_sub_of : (s : String) (op : OperatorAddSub) → IsAddSub op s → visit_operator_add_sub s ≡ op
unfolding visit_operator_add_sub
add_sub_of s OperatorAddSub.add h = rw h
add_sub_of s OperatorAddSub.sub h = rw h
add_sub_of s OperatorAddSub.error h = ground (arith, eq_iff s "+", eq_iff s "-")

visit_operator_bitwise-IsBitwise : (s : String) → IsBitwise (visit_operator_bitwise s) s
unfolding visit_operator_bitwise
visit_operator_bitwise-IsBitwise s =
    ground (arith, eq_iff s "&", eq_iff s "|", eq_iff s "~", eq_iff s "<<", eq_iff s ">>")

bitwise_of : (s : String) (op : OperatorBitwise) → IsBitwise op s → visit_operator_bitwise s ≡ op
unfolding visit_operator_bitwise
bitwise_of s OperatorBitwise.and h = rw h
bitwise_of s OperatorBitwise.or h = rw h
bitwise_of s OperatorBitwise.xor h = rw h
bitwise_of s OperatorBitwise.lshift h = rw h
bitwise_of s OperatorBitwise.rshift h = rw h
bitwise_of s OperatorBitwise.error h =
    ground (arith, eq_iff s "&", eq_iff s "|", eq_iff s "~", eq_iff s "<<", eq_iff s ">>")

visit_operator_unary-IsUnary : (s : String) → IsUnary (visit_operator_unary s) s
unfolding visit_operator_unary
visit_operator_unary-IsUnary s =
    ground (arith, eq_iff s "not", eq_iff s "#", eq_iff s "-", eq_iff s "~")

unary_of : (s : String) (op : OperatorUnary) → IsUnary op s → visit_operator_unary s ≡ op
unfolding visit_operator_unary
unary_of s OperatorUnary.negation h = rw h
unary_of s OperatorUnary.bang h = rw h
unary_of s OperatorUnary.minus h = rw h
unary_of s OperatorUnary.bin_not h = rw h
unary_of s OperatorUnary.error h =
    ground (arith, eq_iff s "not", eq_iff s "#", eq_iff s "-", eq_iff s "~")

-- The operator read from a text is one of the grammar's operators exactly when the text is that
-- operator's symbol, and the error case exactly when it is the symbol of none, for the comparison,
-- arithmetic, bitwise and unary operators.
pub visit_operators_lem :
    (s : String)
    → ((op : OperatorComparison) → (visit_operator_comparison s ≡ op) ↔ IsComparison op s)
      × ((op : OperatorMulDivMod) → (visit_operator_mul_div_mod s ≡ op) ↔ IsMulDivMod op s)
      × ((op : OperatorAddSub) → (visit_operator_add_sub s ≡ op) ↔ IsAddSub op s)
      × ((op : OperatorBitwise) → (visit_operator_bitwise s ≡ op) ↔ IsBitwise op s)
      × ((op : OperatorUnary) → (visit_operator_unary s ≡ op) ↔ IsUnary op s)
visit_operators_lem s = (
  λ op. (λ e. rw (← e) (visit_operator_comparison-IsComparison s), comparison_of s op),
  λ op. (λ e. rw (← e) (visit_operator_mul_div_mod-IsMulDivMod s), mul_div_mod_of s op),
  λ op. (λ e. rw (← e) (visit_operator_add_sub-IsAddSub s), add_sub_of s op),
  λ op. (λ e. rw (← e) (visit_operator_bitwise-IsBitwise s), bitwise_of s op),
  λ op. (λ e. rw (← e) (visit_operator_unary-IsUnary s), unary_of s op),
)
