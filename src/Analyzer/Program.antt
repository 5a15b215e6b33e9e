-- ===== src/Analyzer/Program.antt =====
-- `validate_gotos` over all scopes: the chunk's, and one for each function.
use luapp.Prelude.{
  ℕ, ◌<◌, List, [], ◌∷◌, ◌++◌, some, ◌≡◌, refl, ◌↔◌, inl, inr, ok, In, In-append_left,
  In-append_right, eq_nat,
}
use luapp.Prelude.Map.{find}
use luapp.Analyzer.Scope.{Block, Scope}
use luapp.Analyzer.Validate.{validate_scopes}
use luapp.Analyzer.Explore.{
  Tree, elements, depth, Holds, GotosOk, explore_context_lem, >>_iff, ×_iff, iff_trans,
}
use luapp.Analyzer.Labels.{
  own_labels, Distinct, InsideDistinct, blocks, Once, Apart, validate_labels_lem,
}

abbrev pub scopes_of : List (Scope × Tree) → List Scope
scopes_of [] = []
scopes_of ((scope, t) ∷ ps) = scope ∷ scopes_of ps

-- Each scope's map stands for its tree, no block stands in two places, none is in `seen`, and the
-- fuel is above the depth of every tree.
abbrev pub StandsFor : ℕ → List (Scope × Tree) → List Block → Type 0
StandsFor fuel [] seen = Unit
StandsFor fuel ((scope, t) ∷ ps) seen =
    (find scope.root_context scope.scope_elements ≡ some (elements t))
    × Holds scope.scope_elements t
    × (depth t < fuel)
    × Once t
    × Apart (blocks t) (scope.root_context ∷ seen)
    × StandsFor fuel ps (scope.root_context ∷ (blocks t ++ seen))

-- In every scope no block declares a label twice, and every goto has a label to go to.
abbrev pub AllLegal : List (Scope × Tree) → Type 0
AllLegal [] = Unit
AllLegal ((scope, t) ∷ ps) =
    (Distinct (own_labels t) × InsideDistinct t × GotosOk t [] []) × AllLegal ps

validate_scopes_iff :
    (fuel : ℕ) (ps : List (Scope × Tree)) (seen known : List Block)
    → StandsFor fuel ps known
    → ((b : Block) → In b seen → In b known)
    → (validate_scopes fuel (scopes_of ps) seen ≡ ok tt) ↔ AllLegal ps
unfolding validate_scopes
validate_scopes_iff fuel [] seen known h sub = (λ _. tt, λ _. refl)
validate_scopes_iff fuel ((scope, t) ∷ ps) seen known (e, holds, lt, once, apart, rest) sub =
    elim (validate_labels_lem scope scope.root_context t fuel seen e holds lt once
      (λ b m. elim [ inl q ↦ apart b m (inl q) | inr n ↦ apart b m (inr (sub b n)) ])) [
        | inl (seen', p, sub', d, i) ↦
            let later =
              validate_scopes_iff fuel ps seen' (scope.root_context ∷ (blocks t ++ known)) rest
                (λ b m. elim ((sub' b).0 m) [
                  | inl (inl q) ↦ inl q
                  | inl (inr n) ↦ inr (In-append_right b (blocks t) known (sub b n))
                  | inr n ↦ inr (In-append_left b (blocks t) known n)
                ]) in
            rw p (
              iff_trans (>>_iff _ _) (
                iff_trans
                  (×_iff (explore_context_lem scope scope.root_context t fuel e holds lt) later)
                  (λ g. ((d, i, g.0), g.1), λ g. (g.0.2, g.1))))
        | inr (l, p, bad) ↦ rw p (λ g. cc, λ g. absurd (bad (g.0.0, g.0.1)))
      ]

-- The checks of `validate_gotos`, over scopes that stand for trees of distinct blocks, with fuel above
-- the depth of every tree: they pass exactly when in every scope no block declares a label twice, and
-- every goto names a label seen before it or visible ahead.
pub validate_scopes_lem :
    (fuel : ℕ) (ps : List (Scope × Tree))
    → StandsFor fuel ps []
    → (validate_scopes fuel (scopes_of ps) [] ≡ ok tt) ↔ AllLegal ps
validate_scopes_lem fuel ps h = validate_scopes_iff fuel ps [] [] h (λ b m. m)
