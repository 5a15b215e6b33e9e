-- ===== src/Interpreter/Stacks/Listing.antt =====
-- interpreter.cpp: the listing of names by the test infrastructure keeps the stacks.
use Prim.Native.String.{◌++◌ as concat}
use luapp.Prelude.{
  eq_nat, suc, String, List, [], ◌∷◌, eq_string, refl, ap, ◌∙◌, ◌≡◌, inl, inr, length, Result-cases,
}
use luapp.Prelude.Map.{Map}
use luapp.Analyzer.Scope.{Block}
use luapp.Analyzer.State.{at, touch}
use luapp.Prelude.Int.{pos}
use luapp.Types.Platform.{Platform}
use luapp.Types.Var.{Var, get}
use luapp.Interpreter.Environment.{ValueStore, Environment, current_block}
use luapp.Interpreter.Loops.{get_store}
use luapp.Interpreter.Machine.{
  Outcome, done, thrown, M, heap, read, gets, give, ◌>>=◌, ◌>>◌, modify,
}
use luapp.Interpreter.Operands.{print_line}
use luapp.Interpreter.Infrastructure.{
  list_store, list_globals, list_locals, list_blocks, list_frames, list_memory,
}
use luapp.Interpreter.Stacks.{Base, SameStacks, Keeps, still, final, >>=-Keeps, >>-Keeps}
use luapp.Interpreter.Stacks.Actions.{
  give-Keeps, read-Keeps, gets-Keeps, view-Keeps, set_store-Keeps,
}
use luapp.Interpreter.Stacks.Operands.{print_line-Keeps}

abbrev Any : {A : Type 0} → A → Type 0
Any a = Unit

module _ {P : Platform} where
  open P use {Double}

  -- The stacks are the same after it, and what it returns is `good`.
  abbrev Shown :
      {A : Type 0} → (A → Type 0) → Environment P → Outcome Double (Environment P) A → Type 0
  Shown good s (done a t) = SameStacks s t × good a
  Shown good s (thrown x t) = SameStacks s t

  record Shows {A : Type 0} (good : A → Type 0) (run : M P A) : Type 0 where
    shows : (s : Environment P) → Shown good s (run s)

  shown :
      {A B : Type 0} {good : A → Type 0} {fine : B → Type 0} {next : A → M P B} (s : Environment P)
      (o : Outcome Double (Environment P) A)
      → Shown good s o
      → ((a : A) → good a → Shows fine (next a))
      → Shown fine s (((λ _. o) >>= next) s)
  shown {fine = fine} {next = next} s (done a t) (q, g) h = onward (next a t) ((h a g).shows t)
    where
      onward : (o : Outcome Double (Environment P) _) → Shown fine t o → Shown fine s o
      onward (done b u) (p, f) = (p ∙ q, f)
      onward (thrown x u) p = p ∙ q
  shown s (thrown x t) q h = q

  >>=-Shows :
      {A B : Type 0} {good : A → Type 0} {fine : B → Type 0} {run : M P A} {next : A → M P B}
      → Shows good run
      → ((a : A) → good a → Shows fine (next a))
      → Shows fine (run >>= next)
  >>=-Shows {run = run} g h = record { shows = λ s. shown s (run s) (g.shows s) h }

  >>-Shows :
      {B : Type 0} {fine : B → Type 0} {run : M P (Unit {0})} {next : M P B}
      → Shows Any run
      → Shows fine next
      → Shows fine (run >> next)
  >>-Shows g h = >>=-Shows g λ _ _. h

  print_line-Shows : (line : String) → Shows Any (print_line P line)
  print_line-Shows line = record { shows = λ s. (refl, tt) }

  give-Shows : {A : Type 0} {good : A → Type 0} (a : A) → good a → Shows good (give a)
  give-Shows a g = record { shows = λ s. (refl, g) }

  read-Shows : (x : Var Double) → Shows Any (read P x)
  read-Shows x = record {
    shows = λ s. elim (Result-cases (get (heap P s) x)) [
      | inl (a, e) ↦ rw (read, e) (refl, tt)
      | inr (y, e) ↦ rw (read, e) refl
    ];
  }

  gets-Shows : {A : Type 0} (f : Environment P → A) → Shows Any (gets f)
  gets-Shows f = record { shows = λ s. (refl, tt) }

  list_store-Shows : (indent : String) (store : ValueStore) → Shows Any (list_store P indent store)
  unfolding list_store
  list_store-Shows indent [] = give-Shows tt tt
  list_store-Shows indent ((name, a) ∷ store) =
      >>=-Shows (read-Shows _) λ v _. >>-Shows (print_line-Shows _) (list_store-Shows indent store)

  list_blocks-Shows :
      (bs : List Block) (frame : Map Block ValueStore) → Shows Any (list_blocks P bs frame)
  unfolding list_blocks
  list_blocks-Shows [] frame = give-Shows frame tt
  list_blocks-Shows (b ∷ below) frame = >>=-Shows (list_blocks-Shows below frame) λ frame' _.
      >>-Shows (print_line-Shows (concat "\tBlock " (P.show_int (pos (length below)))))
        (>>-Shows (list_store-Shows "\t\t" (at [] b frame')) (give-Shows (touch [] b frame') tt))

  list_frames-Shows :
      (frames : List (Map Block ValueStore))
      → Shows (λ l. length l ≡ length frames) (list_frames P frames)
  unfolding list_frames
  list_frames-Shows [] = give-Shows [] refl
  list_frames-Shows (frame ∷ below) = >>=-Shows (list_frames-Shows below) λ below' e.
      >>-Shows (print_line-Shows _) (
        >>=-Shows (gets-Shows λ s. s.blocks) λ blocks _.
          >>=-Shows (list_blocks-Shows blocks frame)
            λ frame' _. give-Shows (frame' ∷ below') (ap suc e))

  same_length :
      (s : Environment P) (o : Outcome Double (Environment P) (List (Map Block ValueStore)))
      → Shown (λ l. length l ≡ length s.local_values) s o
      → SameStacks s
          (final (((λ _. o) >>= λ frames. modify λ t. record t { local_values = frames }) s))
  same_length s (done frames t) (q, e) =
      ap (λ n. (t.blocks, t.functions, n, t.coming_from_for, t.coming_from_funcall)) e
      ∙ ap (λ x. (x.0, x.1, length s.local_values, x.3, x.4)) q
  same_length s (thrown x t) q = q

  module _ {base : Base} where
    list_store-Keeps :
        (indent : String) (store : ValueStore) → Keeps base (list_store P indent store)
    unfolding list_store
    list_store-Keeps indent [] = give-Keeps tt
    list_store-Keeps indent ((name, a) ∷ store) =
        >>=-Keeps (read-Keeps _) λ v. >>-Keeps (print_line-Keeps _) (list_store-Keeps indent store)

    pub list_globals-Keeps : (indent : String) → Keeps base (list_globals P indent)
    unfolding list_globals
    list_globals-Keeps indent =
        search (>>=-Keeps, >>-Keeps, print_line-Keeps, gets-Keeps, list_store-Keeps) depth 12

    pub list_locals-Keeps : Keeps base (list_locals P)
    unfolding list_locals
    list_locals-Keeps = >>-Keeps (print_line-Keeps _) (
        >>=-Keeps (gets-Keeps (current_block P)) λ block.
          >>=-Keeps (view-Keeps (get_store P block)) λ store.
            >>-Keeps (set_store-Keeps block store)
              (>>-Keeps (list_store-Keeps "" store) (print_line-Keeps "")))

    pub list_memory-Keeps : Keeps base (list_memory P)
    unfolding list_memory
    list_memory-Keeps = >>-Keeps (list_globals-Keeps "\t") (
        still λ s.
          same_length s (list_frames P s.local_values s)
            ((list_frames-Shows s.local_values).shows s))
