-- ===== src/Interpreter/Operators.antt =====
-- interpreter.h and interpreter.cpp: the operators and the symbols that they are read from.
pub mod Symbols
use luapp.Prelude.{String, ◌==◌, eq_string, if◌then◌else◌}

-- The operators of interpreter.h, each with a case for a symbol that is none of them.
pub data OperatorComparison : Type 0 where
  lower_s greater_s lower_e greater_e diff eq error : OperatorComparison

pub data OperatorAddSub : Type 0 where
  add sub error : OperatorAddSub

pub data OperatorMulDivMod : Type 0 where
  mul div modulo quot error : OperatorMulDivMod

pub data OperatorBitwise : Type 0 where
  and or xor lshift rshift error : OperatorBitwise

pub data OperatorUnary : Type 0 where
  negation bang minus bin_not error : OperatorUnary

unfoldable pub visit_operator_comparison : String → OperatorComparison
visit_operator_comparison symbol =
    if symbol == "<"
    then OperatorComparison.lower_s
    else if symbol == ">"
    then OperatorComparison.greater_s
    else if symbol == "<="
    then OperatorComparison.lower_e
    else if symbol == ">="
    then OperatorComparison.greater_e
    else if symbol == "~="
    then OperatorComparison.diff
    else if symbol == "=="
    then OperatorComparison.eq
    else OperatorComparison.error

unfoldable pub visit_operator_add_sub : String → OperatorAddSub
visit_operator_add_sub symbol =
    if symbol == "+"
    then OperatorAddSub.add
    else if symbol == "-"
    then OperatorAddSub.sub
    else OperatorAddSub.error

unfoldable pub visit_operator_mul_div_mod : String → OperatorMulDivMod
visit_operator_mul_div_mod symbol =
    if symbol == "*"
    then OperatorMulDivMod.mul
    else if symbol == "/"
    then OperatorMulDivMod.div
    else if symbol == "%"
    then OperatorMulDivMod.modulo
    else if symbol == "//"
    then OperatorMulDivMod.quot
    else OperatorMulDivMod.error

unfoldable pub visit_operator_bitwise : String → OperatorBitwise
visit_operator_bitwise symbol =
    if symbol == "&"
    then OperatorBitwise.and
    else if symbol == "|"
    then OperatorBitwise.or
    else if symbol == "~"
    then OperatorBitwise.xor
    else if symbol == "<<"
    then OperatorBitwise.lshift
    else if symbol == ">>"
    then OperatorBitwise.rshift
    else OperatorBitwise.error

unfoldable pub visit_operator_unary : String → OperatorUnary
visit_operator_unary symbol =
    if symbol == "not"
    then OperatorUnary.negation
    else if symbol == "#"
    then OperatorUnary.bang
    else if symbol == "-"
    then OperatorUnary.minus
    else if symbol == "~"
    then OperatorUnary.bin_not
    else OperatorUnary.error
