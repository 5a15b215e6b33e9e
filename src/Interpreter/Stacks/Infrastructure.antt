-- ===== src/Interpreter/Stacks/Infrastructure.antt =====
-- interpreter.cpp: the calls of the test infrastructure keep the stacks.
use luapp.Prelude.{
  ℕ, eq_nat, String, List, [], ◌∷◌, Bool, true, false, elem, eq_string, ◌==◌, not, inl, inr,
  bad_type, value_equality_expected, Bool-cases,
}
use luapp.Types.Platform.{Platform}
use luapp.Types.Value.{LuaValue, string, is_refcounted}
use luapp.Types.Coerce.{value_as_string}
use luapp.Types.Var.{Var, var_equal}
use luapp.Interpreter.Syntax.{
  ArgsContext, NameAndArgsContext, HeadContext, VarSuffixContext, VarOrExpContext,
}
use luapp.Interpreter.Environment.{Environment}
use luapp.Interpreter.Machine.{
  Outcome, done, thrown, error, break, goto, return, M, heap, read, fail, ◌>>=◌,
}
use luapp.Interpreter.Infrastructure.{
  arguments, allowed_names, catch_bad_type, ensure_value_type, expect_failure, print, test_call,
  funcall_test_infrastructure, as_text, differ, check_type,
}
use luapp.Interpreter.Stacks.{Base, Ends, Keeps, >>=-Keeps, >>-Keeps, if-Keeps}
use luapp.Interpreter.Stacks.Actions.{
  give-Keeps, fail-Keeps, read-Keeps, view-Keeps, child_at-Keeps,
}
use luapp.Interpreter.Stacks.Operands.{print_line-Keeps}
use luapp.Interpreter.Stacks.Arguments.{nth-Keeps}
use luapp.Interpreter.Stacks.Listing.{list_globals-Keeps, list_locals-Keeps, list_memory-Keeps}

module _ {P : Platform} where
  open P use {Double}

  module _ {base : Base} where
    arguments-Keeps : (cs : List NameAndArgsContext) → Keeps base (arguments P cs)
    unfolding arguments
    arguments-Keeps [] = fail-Keeps _
    arguments-Keeps (c ∷ cs) = of_args c.args
      where
        of_args : (a : ArgsContext) → Keeps base (arguments P (record c { args = a } ∷ cs))
        of_args (ArgsContext.explist es) = give-Keeps es
        of_args (ArgsContext.tableconstructor fields) = fail-Keeps _
        of_args (ArgsContext.string t) = fail-Keeps _
        of_args ArgsContext.nothing = fail-Keeps _

    as_text-Keeps : (v : LuaValue Double) → Keeps base (as_text P v)
    as_text-Keeps (string t) = give-Keeps t
    as_text-Keeps v = fail-Keeps _

    differ-Keeps : (m : LuaValue Double) (x y : Var Double) → Keeps base (differ P m x y)
    unfolding differ
    differ-Keeps m x y = record {
      keeps = λ s w. elim (Bool-cases (is_refcounted m)) [
        | inl e ↦ rw (differ, e) (inr w)
        | inr e ↦
            rw (differ, e)
              ((>>=-Keeps (view-Keeps λ t. var_equal P (heap P t) x y)
                  λ b. give-Keeps (not b)).keeps
                s w)
      ];
    }

    check_type-Keeps :
        (expression name : String) (v : LuaValue Double)
        → Keeps base (check_type P expression name v)
    unfolding check_type
    check_type-Keeps expression name v = search (if-Keeps, fail-Keeps, give-Keeps)

    caught :
        (expression : String) (o : Outcome Double (Environment P) (Var Double)) (s : Environment P)
        → Ends base o
        → Ends base (catch_bad_type P expression (λ _. o) s)
    unfolding catch_bad_type
    caught expression (done x t) s (inl (t', e)) = cc
    caught expression (done x t) s (inr w) = inr w
    caught expression (thrown (error (bad_type a b c)) t) s (inl (t', e)) = cc
    caught expression (thrown (error (bad_type a b c)) t) s (inr w) = (print_line-Keeps _).keeps t w
    caught expression (thrown (error x) t) s (inl (t', e)) = inl (t', cc)
    caught expression (thrown (error x) t) s (inr w) = inr w
    caught expression (thrown break t) s (inl (t', e)) = cc
    caught expression (thrown break t) s (inr w) = inr w
    caught expression (thrown (goto l) t) s (inl (t', e)) = cc
    caught expression (thrown (goto l) t) s (inr w) = inr w
    caught expression (thrown (return vs) t) s (inl (t', e)) = cc
    caught expression (thrown (return vs) t) s (inr w) = inr w

  module _ (text : ℕ → String) {e : ℕ → M P (Var Double)}
      (he : (base : Base) (i : ℕ) → Keeps base (e i)) {base : Base} where
    ensure_value_type-Keeps : (es : List ℕ) → Keeps base (ensure_value_type P text e es)
    unfolding ensure_value_type
    ensure_value_type-Keeps es = >>=-Keeps (child_at-Keeps 0 es) λ i. >>=-Keeps (he base i) λ leftV.
        >>=-Keeps (nth-Keeps he 1 es) λ middleV. >>=-Keeps (nth-Keeps he 2 es) λ rightV.
          >>=-Keeps (read-Keeps middleV) λ middle.
            >>=-Keeps (differ-Keeps middle leftV middleV) λ different.
              >>=-Keeps (read-Keeps leftV) λ left. compared i rightV middle left different
      where
        compared :
            (i : ℕ) (rightV : Var Double) (middle left : LuaValue Double) (different : Bool)
            → Keeps base (elim different [
              | true ↦ fail (
                  value_equality_expected
                    (text i)
                    (value_as_string P middle)
                    (value_as_string P left))
              | false ↦ read P rightV >>= λ right.
                  as_text P right >>= λ name. check_type P (text i) name left
            ])
        compared i rightV middle left true = fail-Keeps _
        compared i rightV middle left false =
            >>=-Keeps (read-Keeps rightV)
              λ right. >>=-Keeps (as_text-Keeps right) λ name. check_type-Keeps (text i) name left

    expect_failure-Keeps : (es : List ℕ) → Keeps base (expect_failure P text e es)
    unfolding expect_failure catch_bad_type
    expect_failure-Keeps es = >>=-Keeps (child_at-Keeps 0 es) λ i. caught_bad_type i
      where
        caught_bad_type : (i : ℕ) → Keeps base (catch_bad_type P (text i) (e i))
        caught_bad_type i = record {
          keeps = λ s w. caught (text i) (e i s) s ((he base i).keeps s w);
        }

    print-Keeps : (es : List ℕ) → Keeps base (print P text e es)
    unfolding print
    print-Keeps es =
        >>=-Keeps (nth-Keeps he 0 es) λ x. >>=-Keeps (read-Keeps x) λ v. print_line-Keeps _

    test_call-Keeps :
        (name : String) (cs : List NameAndArgsContext) → Keeps base (test_call P text e name cs)
    unfolding test_call
    test_call-Keeps name cs =
        if-Keeps (name == "ensure_value_type")
          (>>=-Keeps (arguments-Keeps cs) ensure_value_type-Keeps)
          (if-Keeps (name == "expect_failure") (>>=-Keeps (arguments-Keeps cs) expect_failure-Keeps)
            (if-Keeps (name == "print") (>>=-Keeps (arguments-Keeps cs) print-Keeps) (
              if-Keeps (name == "globals") (list_globals-Keeps "")
                (if-Keeps (name == "locals") list_locals-Keeps list_memory-Keeps))))

    of_head :
        (h : HeadContext) (suffixes : List VarSuffixContext) (cs : List NameAndArgsContext)
        → Keeps base (
            funcall_test_infrastructure P text e (record {
              var_or_exp = VarOrExpContext.var_ (record { head = h; var_suffix = suffixes });
              name_and_args = cs;
            }))
    unfolding funcall_test_infrastructure
    of_head (HeadContext.exp i) suffixes cs = fail-Keeps _
    of_head (HeadContext.name n) suffixes cs =
        if-Keeps (elem n allowed_names) (>>-Keeps (test_call-Keeps n cs) (give-Keeps true))
          (give-Keeps false)

    pub funcall_test_infrastructure-Keeps :
        (h : VarOrExpContext) (cs : List NameAndArgsContext)
        → Keeps base
            (funcall_test_infrastructure P text e (record { var_or_exp = h; name_and_args = cs }))
    unfolding funcall_test_infrastructure
    funcall_test_infrastructure-Keeps (VarOrExpContext.exp i) cs = give-Keeps false
    funcall_test_infrastructure-Keeps (VarOrExpContext.var_ v) cs = of_head v.head v.var_suffix cs
