-- ===== src/Interpreter/Infrastructure/Failing.antt =====
-- interpreter.cpp: `expect_failure` of the test infrastructure.
use luapp.Prelude.{ℕ, String, List, ◌∷◌, bad_type, ◌≡◌, refl, sym, subst}
use luapp.Types.Platform.{Platform}
use luapp.Types.Var.{Var}
use luapp.Interpreter.Environment.{Environment}
use luapp.Interpreter.Machine.{Outcome, done, thrown, error, break, goto, return, M}
use luapp.Interpreter.Infrastructure.{catch_bad_type, expect_failure}

module _ (P : Platform) (text : ℕ → String) (visit_exp : ℕ → M P (Var P.Double)) where
  -- The visit of an expression throws a type error.
  abbrev pub IsBadType : ℕ → Environment P → Type 0
  IsBadType e s =
      (expected : String) × (received : String) × (context : String) × (s' : Environment P)
      × (visit_exp e s ≡ thrown (error (bad_type expected received context)) s')

  abbrev pub IsDone : Outcome P.Double (Environment P) (Unit {0}) → Type 0
  IsDone r = (s' : Environment P) × (r ≡ done tt s')

  catch_bad_type-done :
      (expression : String) (e : ℕ) (s : Environment P)
      (o : Outcome P.Double (Environment P) (Var P.Double))
      → visit_exp e s ≡ o
      → IsDone (catch_bad_type P expression (λ _. o) s)
      → IsBadType e s
  unfolding catch_bad_type
  catch_bad_type-done expression e s (done x s₁) q (s', h) = cc
  catch_bad_type-done expression e s (thrown break s₁) q (s', h) = cc
  catch_bad_type-done expression e s (thrown (goto l) s₁) q (s', h) = cc
  catch_bad_type-done expression e s (thrown (return vs) s₁) q (s', h) = cc
  catch_bad_type-done expression e s (thrown (error (bad_type a b c)) s₁) q h = (a, b, c, s₁, q)
  catch_bad_type-done expression e s (thrown (error x) s₁) q (s', h) = cc

  -- `expect_failure` ends without an exception just if the visit of its expression throws a type error.
  pub expect_failure_lem :
      (e : ℕ) (es : List ℕ) (s : Environment P)
      → (IsDone (expect_failure P text visit_exp (e ∷ es) s) → IsBadType e s)
        × (IsBadType e s → IsDone (expect_failure P text visit_exp (e ∷ es) s))
  unfolding expect_failure catch_bad_type
  expect_failure_lem e es s = (
    catch_bad_type-done (text e) e s (visit_exp e s) refl,
    λ (a, b, c, s', q).
        subst (λ o. IsDone (catch_bad_type P (text e) (λ _. o) s)) (sym q) (_, refl),
  )
