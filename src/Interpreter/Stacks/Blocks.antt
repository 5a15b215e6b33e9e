-- ===== src/Interpreter/Stacks/Blocks.antt =====
-- interpreter.cpp: blocks keep the stacks, if the visitors do.
use luapp.Prelude.{
  ℕ, List, [], ◌∷◌, Bool, false, true, ◌||◌, ◌==◌, eq_string, eq_nat, inl, inr, refl, sym, subst,
  if◌then◌else◌, runtime_error, undefined,
}
use luapp.Analyzer.Scope.{Block}
use luapp.Types.Platform.{Platform}
use luapp.Interpreter.Syntax.{ParseTree}
use luapp.Interpreter.Environment.{Environment, current_block}
use luapp.Interpreter.Machine.{
  Outcome, done, thrown, error, break, goto, return, M, ◌>>◌, give, push_block,
}
use luapp.Interpreter.Calls.{Host}
use luapp.Interpreter.Statements.{
  Visitor, visit_retstat, visit_stat, catch_goto, visit_stats, end_block, visit_block,
}
use luapp.Interpreter.Stacks.{Base, Within, Ends, Keeps, >>=-Keeps, >>-Keeps, if-Keeps}
use luapp.Interpreter.Stacks.Actions.{give-Keeps, fail-Keeps, gets-Keeps, erase_block-Keeps}
use luapp.Interpreter.Stacks.Entering.{Weaker, Within-below, Leads, >>-Leads, Ends-Weaker}
use luapp.Interpreter.Stacks.Unwinding.{Anchored, stabilize_blocks-Keeps, pop_block-Leads}
use luapp.Interpreter.Stacks.Calls.{BlockKeeps}
use luapp.Interpreter.Stacks.Statements.{visit_stat-Keeps, visit_retstat-Keeps}

module _ (P : Platform) (H : Host P.Double) (tree : ParseTree) where
  open P use {Double}

  module _ {V : Visitor P} (he : (base : Base) (i : ℕ) → Keeps base (V.exp i))
      (hb : BlockKeeps P V.block) where
    caught :
        {base : Base} (context : Block) (s : Environment P)
        (o : Outcome Double (Environment P) (Unit {0}))
        → Anchored base context
        → Ends base o
        → Ends base (catch_goto P H tree V context (λ _. o) s)
    unfolding catch_goto
    caught context s (done u t) h (inl (t', e)) = cc
    caught context s (done u t) h (inr w) = inr w
    caught context s (thrown (goto l) t) h (inl (t', e)) = cc
    caught context s (thrown (goto l) t) h (inr w) =
        (>>-Keeps (stabilize_blocks-Keeps context h) (fail-Keeps undefined)).keeps t w
    caught context s (thrown (error x) t) h (inl (t', e)) = inl (t', cc)
    caught context s (thrown (error x) t) h (inr w) = inr w
    caught context s (thrown break t) h (inl (t', e)) = cc
    caught context s (thrown break t) h (inr w) = inr w
    caught context s (thrown (return vs) t) h (inl (t', e)) = cc
    caught context s (thrown (return vs) t) h (inr w) = inr w

    visit_stats-Keeps :
        {base : Base} (n : ℕ) (context : Block) (is : List ℕ)
        → Anchored base context
        → Keeps base (visit_stats P H tree V n context is)
    unfolding visit_stats catch_goto
    visit_stats-Keeps n context [] h = give-Keeps tt
    visit_stats-Keeps n context (i ∷ is) h =
        >>-Keeps {run = catch_goto P H tree V context (visit_stat P H tree V n (tree.stat i))}
          (record {
            keeps = λ s w.
                caught context s (visit_stat P H tree V n (tree.stat i) s) h
                  ((visit_stat-Keeps P H tree he hb n (tree.stat i)).keeps s w);
          })
          (visit_stats-Keeps n context is h)

    abbrev on_top : Base → Block → Base
    on_top base b = record base { blocks = b ∷ base.blocks }

    off_top : (base : Base) (b : Block) → Weaker P (on_top base b) base
    off_top base b s w = Within-below (b ∷ [], refl) ([], refl) refl w

    end_block-Leads :
        (base : Base) (context : Block)
        → Leads (on_top base context) base (end_block P H tree V context false)
    unfolding end_block
    end_block-Leads base context =
        >>-Leads (erase_block-Keeps context)
          (record {
            leads = λ s w.
                (>>-Leads
                    (if-Keeps (current_block P s == context) (give-Keeps tt)
                      (fail-Keeps (runtime_error "Unbalanced blocks")))
                    (pop_block-Leads context) (off_top base context)).leads
                  s w;
          })
          (off_top base context)

    end_block-Keeps :
        {base : Base} (context : Block) → Keeps base (end_block P H tree V context true)
    unfolding end_block
    end_block-Keeps context = >>-Keeps (give-Keeps tt) (
        >>=-Keeps (gets-Keeps (current_block P)) λ back.
          >>-Keeps
            (if-Keeps (back == context) (give-Keeps tt)
              (fail-Keeps (runtime_error "Unbalanced blocks")))
            (give-Keeps tt))

    -- The statements, the return statement and the end.
    abbrev main : ℕ → Block → Bool → M P (Unit {0})
    main n context from_for =
        visit_stats P H tree V n context (tree.block context).stat
        >> (visit_retstat P H tree V (tree.block context).retstat
            >> end_block P H tree V context from_for)

    main-Leads :
        (base : Base) (n : ℕ) (context : Block)
        → Leads (on_top base context) base (main n context false)
    main-Leads base n context =
        >>-Leads (visit_stats-Keeps n context (tree.block context).stat (inr (base.blocks, refl)))
          (>>-Leads (visit_retstat-Keeps P H tree he hb (tree.block context).retstat)
            (end_block-Leads base context) (off_top base context))
          (off_top base context)

    main-Keeps :
        (base : Base) (n : ℕ) (context : Block)
        → Anchored base context
        → Keeps base (main n context true)
    main-Keeps base n context h =
        >>-Keeps (visit_stats-Keeps n context (tree.block context).stat h) (
          >>-Keeps (visit_retstat-Keeps P H tree he hb (tree.block context).retstat)
            (end_block-Keeps context))

    -- From the test of the flags on.
    abbrev started : ℕ → Block → Bool → Bool → M P (Unit {0})
    started n context from_for from_funcall =
        (if from_for || from_funcall then give tt else push_block P context)
        >> main n context from_for

    abbrev unflagged : Environment P → Environment P
    unflagged s = record s { coming_from_for = false; coming_from_funcall = false }

    Within-unflagged : {base : Base} (s : Environment P) → Within base s → Within base (unflagged s)
    Within-unflagged s w = record {
      blocks = w.blocks;
      functions = w.functions;
      frames = w.frames;
      from_for = refl;
      from_funcall = refl;
    }

    pushed :
        (base : Base) (context : Block) (s : Environment P)
        → Within base s
        → Within
            (on_top (record base { blocks = s.blocks }) context)
            (record (unflagged s) { blocks = context ∷ s.blocks })
    pushed base context s w = record {
      blocks = ([], refl);
      functions = w.functions;
      frames = w.frames;
      from_for = refl;
      from_funcall = refl;
    }

    visit_block-Keeps :
        (base : Base) (n : ℕ) (context : Block) → Keeps base (visit_block P H tree V n context)
    unfolding visit_block
    visit_block-Keeps base n context = record {
      keeps = λ s w.
          let own = record base { blocks = s.blocks } in
          let run = main n context false (record (unflagged s) { blocks = context ∷ s.blocks }) in
          subst (λ b. Ends base (started n context b s.coming_from_funcall (unflagged s)))
            (sym w.from_for)
            (subst (λ b. Ends base (started n context false b (unflagged s))) (sym w.from_funcall)
              (Ends-Weaker (λ t v. Within-below w.blocks ([], refl) refl v) run
                ((main-Leads own n context).leads
                  (record (unflagged s) { blocks = context ∷ s.blocks })
                  (pushed base context s w))));
    }

    pub visit_block-BlockKeeps : (n : ℕ) → BlockKeeps P (visit_block P H tree V n)
    unfolding visit_block
    visit_block-BlockKeeps n = record {
      plain = λ base context. visit_block-Keeps base n context;
      looping = λ base context h. record {
        keeps = λ s w. (main-Keeps base n context h).keeps (unflagged s) (Within-unflagged s w);
      };
      calling = λ base context. record {
        leads = λ s w.
            subst (λ b. Ends base (started n context b true (unflagged s))) (sym w.from_for)
              ((main-Leads base n context).leads (unflagged s) (Within-unflagged s w));
      };
    }
