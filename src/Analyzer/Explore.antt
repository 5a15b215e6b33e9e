-- ===== src/Analyzer/Explore.antt =====
-- The checks of a whole scope, against the tree of blocks that the scope's map stands for.
use luapp.Prelude.{
  ℕ, zero, suc, ◌≤◌, ◌<◌, String, List, [], ◌∷◌, ◌++◌, reverse, some, ◌≡◌, refl, ◌↔◌, ◌⊎◌, inl, inr,
  Result, ok, err, ◌>>◌, In, elem, elem_iff, arith, eq_nat, eq_string, Bool-cases, if◌then◌else◌,
}
use luapp.Prelude.Map.{Map, find}
use Prim.Native.Nat.{max}
use mathlib.Core.List.{reverse-append}
use luapp.Analyzer.Scope.{Block, Element, goto, label, local, block, Scope}
use luapp.Analyzer.Validate.{validate_goto, explore_elements, explore_context}
use luapp.Analyzer.Visible.{Visible, validate_goto_lem}

-- The elements of a block with those of the blocks inside it.
pub data Tree : Type 0 where
  done : Tree
  goto_then : String → Tree → Tree
  label_then : String → Tree → Tree
  local_then : String → Tree → Tree
  block_then : Block → Tree → Tree → Tree

abbrev pub elements : Tree → List Element
elements done = []
elements (goto_then l t) = goto l ∷ elements t
elements (label_then l t) = label l ∷ elements t
elements (local_then n t) = local n ∷ elements t
elements (block_then b inside t) = block b ∷ elements t

abbrev pub depth : Tree → ℕ
depth done = 0
depth (goto_then l t) = depth t
depth (label_then l t) = depth t
depth (local_then n t) = depth t
depth (block_then b inside t) = max (suc (depth inside)) (depth t)

-- The map holds, for each block inside the tree, the elements of that block.
abbrev pub Holds : Map Block (List Element) → Tree → Type 0
Holds m done = Unit
Holds m (goto_then l t) = Holds m t
Holds m (label_then l t) = Holds m t
Holds m (local_then n t) = Holds m t
Holds m (block_then b inside t) = (find b m ≡ some (elements inside)) × Holds m inside × Holds m t

-- Each goto names a label that came before it, in its block or around it, or one that is visible
-- ahead. `seen` has the labels before, `levels` what is ahead in the blocks around.
abbrev pub GotosOk : Tree → List String → List (List Element) → Type 0
GotosOk done seen levels = Unit
GotosOk (goto_then l t) seen levels =
    (In l seen ⊎ Visible l ((goto l ∷ elements t) ∷ levels)) × GotosOk t seen levels
GotosOk (label_then l t) seen levels = GotosOk t (seen ++ l ∷ []) levels
GotosOk (local_then n t) seen levels = GotosOk t seen levels
GotosOk (block_then b inside t) seen levels =
    GotosOk inside seen ((block b ∷ elements t) ∷ levels) × GotosOk t seen levels

-- Two checks in a row pass exactly if both do.
pub >>_iff : (r s : Result (Unit {0})) → ((r >> s) ≡ ok tt) ↔ ((r ≡ ok tt) × (s ≡ ok tt))
>>_iff (ok tt) s = (λ h. (refl, h), λ h. h.1)
>>_iff (err e) s = (λ h. cc, λ h. cc)

goto_check :
    (l : String) (es : List Element) (labels : List String) (iters : List (List Element))
    → ((if elem l labels then ok tt else validate_goto (iters ++ es ∷ []) l) ≡ ok tt)
      ↔ (In l labels ⊎ Visible l (es ∷ reverse iters))
goto_check l es labels iters = elim (Bool-cases (elem l labels)) [
  | inl e ↦ rw e (λ _. inl ((elem_iff l labels).0 e), λ _. refl)
  | inr e ↦ rw e (
      let v = rw reverse-append at (validate_goto_lem (iters ++ es ∷ []) l).0 in
      (λ p. inr (v.0 p), elim [ inl m ↦ cc ((elem_iff l labels).1 m) | inr w ↦ v.1 w ]))
]

pub ×_iff : {A B C D : Type 0} → A ↔ C → B ↔ D → (A × B) ↔ (C × D)
×_iff p q = (λ h. (p.0 h.0, q.0 h.1), λ h. (p.1 h.0, q.1 h.1))

pub iff_trans : {A B C : Type 0} → A ↔ B → B ↔ C → A ↔ C
iff_trans p q = (λ a. q.0 (p.0 a), λ c. p.1 (q.1 c))

module _ (scope : Scope) where
  explore_context-found :
      (fuel : ℕ) (ctx : Block) {vec : List Element} (labels : List String)
      (iters : List (List Element))
      → find ctx scope.scope_elements ≡ some vec
      → explore_context (suc fuel) scope ctx labels iters
        ≡ explore_elements (explore_context fuel scope) vec labels iters
  unfolding explore_context
  explore_context-found fuel ctx labels iters e = rw (e, explore_context)

  explore_elements_iff :
      (t : Tree) (fuel : ℕ) (labels : List String) (iters : List (List Element))
      → Holds scope.scope_elements t
      → depth t ≤ fuel
      → (explore_elements (explore_context fuel scope) (elements t) labels iters ≡ ok tt)
        ↔ GotosOk t labels (reverse iters)
  unfolding explore_elements
  explore_elements_iff done fuel labels iters h le = (λ _. tt, λ _. refl)
  explore_elements_iff (goto_then l t) fuel labels iters h le = iff_trans (>>_iff _ _) (
      ×_iff (goto_check l (goto l ∷ elements t) labels iters)
        (explore_elements_iff t fuel labels iters h le))
  explore_elements_iff (label_then l t) fuel labels iters h le =
      explore_elements_iff t fuel (labels ++ l ∷ []) iters h le
  explore_elements_iff (local_then n t) fuel labels iters h le =
      explore_elements_iff t fuel labels iters h le
  explore_elements_iff (block_then b inside t) zero labels iters h le = absurd (omega arith)
  explore_elements_iff (block_then b inside t) (suc fuel) labels iters h le =
      let here = block b ∷ elements t in
      let enters = explore_elements_iff inside fuel labels (iters ++ here ∷ []) h.1 (omega arith) in
      iff_trans (>>_iff _ _) (
        ×_iff
          (rw (explore_context-found fuel b labels (iters ++ here ∷ []) h.0)
            (rw reverse-append at enters))
          (explore_elements_iff t (suc fuel) labels iters h.2 (omega arith)))

  -- The exploration of a scope whose map stands for the tree `t`, with fuel above the tree's depth,
  -- passes exactly when every goto of the tree names a label seen before it or visible ahead.
  pub explore_context_lem :
      (ctx : Block) (t : Tree) (fuel : ℕ)
      → find ctx scope.scope_elements ≡ some (elements t)
      → Holds scope.scope_elements t
      → depth t < fuel
      → (explore_context fuel scope ctx [] [] ≡ ok tt) ↔ GotosOk t [] []
  explore_context_lem ctx t zero e h lt = absurd (omega arith)
  explore_context_lem ctx t (suc fuel) e h lt =
      rw (explore_context-found fuel ctx [] [] e)
        (explore_elements_iff t fuel [] [] h (omega arith))
