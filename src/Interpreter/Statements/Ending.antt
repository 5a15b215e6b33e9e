-- ===== src/Interpreter/Statements/Ending.antt =====
-- interpreter.cpp: the end of `visitBlock`, and the stack of blocks.
use luapp.Prelude.{
  List, [], ◌∷◌, false, eq_nat, nat_eq_iff, ◌==◌, if◌then◌else◌, arith, inl, inr, Result-cases,
  Bool-cases, runtime_error, ◌≡◌, refl, sym, ◌∙◌,
}
use luapp.Analyzer.Scope.{Block, nullptr}
use luapp.Types.Platform.{Platform}
use luapp.Interpreter.Syntax.{ParseTree}
use luapp.Interpreter.Environment.{Environment, current_block}
use luapp.Interpreter.Environment.Closing.{erase_block}
use luapp.Interpreter.Environment.Closing.Keeping.{erase_block-KeepsBlocks}
use luapp.Interpreter.Machine.{
  Thrown, Outcome, done, thrown, ◌>>=◌, ◌>>◌, give, fail, gets, pop_block, attempt, M,
}
use luapp.Interpreter.Calls.{Host}
use luapp.Interpreter.Statements.{Visitor, end_block}

module _ (P : Platform) (H : Host P.Double) (tree : ParseTree) (V : Visitor P)
    (context : Block) where
  -- The end of a block once its locals are gone.
  abbrev leave_block : M P (Unit {0})
  leave_block = gets (current_block P) >>= λ back.
      (if back == context then give tt else fail (runtime_error "Unbalanced blocks")) >> pop_block P

  abbrev Ended : Type 0
  Ended = Outcome P.Double (Environment P) (Unit {0})

  thrown-done :
      {x : Thrown P.Double} {s s' : Environment P} → ◌≡◌ {A = Ended} (thrown x s) (done tt s') → ⊥
  thrown-done h = cc

  done-blocks :
      {s s' : Environment P} → ◌≡◌ {A = Ended} (done tt s) (done tt s') → s.blocks ≡ s'.blocks
  done-blocks h = cc

  leave_block-done :
      (bs : List Block) (s s' : Environment P)
      → s.blocks ≡ bs
      → leave_block s ≡ done tt s'
      → bs ≡ context ∷ s'.blocks
  unfolding current_block
  leave_block-done [] s s' q h = elim (Bool-cases (nullptr == context)) [
    | inl e ↦
        absurd (thrown-done (rw (leave_block, ◌>>=◌, ◌>>◌, current_block, pop_block, q, e) at h))
    | inr e ↦
        absurd (thrown-done (rw (leave_block, ◌>>=◌, ◌>>◌, current_block, pop_block, q, e) at h))
  ]
  leave_block-done (b ∷ bs) s s' q h = elim (Bool-cases (b == context)) [
    | inl e ↦ ground (
      arith,
      nat_eq_iff b context,
      done-blocks (rw (leave_block, ◌>>=◌, ◌>>◌, current_block, pop_block, q, e) at h),
    )
    | inr e ↦
        absurd (thrown-done (rw (leave_block, ◌>>=◌, ◌>>◌, current_block, pop_block, q, e) at h))
  ]

  -- A block that is not the body of a `for` can end just where it is the current one, and its end
  -- takes it, and no other block, from the stack.
  pub end_block_lem :
      (s s' : Environment P)
      → end_block P H tree V context false s ≡ done tt s'
      → s.blocks ≡ context ∷ s'.blocks
  unfolding end_block
  end_block_lem s s' h = elim (Result-cases (erase_block P context s)) [
    | inl (s₁, e) ↦
        sym (erase_block-KeepsBlocks P context s s₁ e)
        ∙ leave_block-done s₁.blocks s₁ s' refl (rw (end_block, ◌>>◌, ◌>>=◌, attempt, e) at h)
    | inr (x, e) ↦ absurd (thrown-done (rw (end_block, ◌>>◌, ◌>>=◌, attempt, e) at h))
  ]
