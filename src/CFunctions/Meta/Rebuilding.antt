-- ===== src/CFunctions/Meta/Rebuilding.antt =====
-- meta_types.h: the list of the types of a variant gives the variant back.
use luapp.Prelude.{Option, none, some, ◌≡◌, refl, ap, sym, ◌∙◌, ◌↔◌}
use luapp.CFunctions.Meta.{
  Cpp, plain, variant, optional, tuple, function, Cpps, nothing, pack, variant_args, push_back,
  tail, variant_from_al_rec, variant_from_al, rebuilt,
}

append : Cpps → Cpps → Cpps
append nothing back = back
append (pack t front) back = pack t (append front back)

append-push_back :
    (front : Cpps) (t : Cpp) (back : Cpps)
    → append (push_back front t) back ≡ append front (pack t back)
unfolding append push_back
append-push_back nothing t back = refl
append-push_back (pack u front) t back = ap (pack u) (append-push_back front t back)

append-nothing : (front : Cpps) (t : Cpp) → push_back front t ≡ append front (pack t nothing)
unfolding append push_back
append-nothing nothing t = refl
append-nothing (pack u front) t = ap (pack u) (append-nothing front t)

variant_from_al_rec_lem :
    (args : Cpps) (t : Cpp) (taken : Cpps)
    → variant_from_al_rec (pack t args) taken ≡ some (variant (append taken (pack t args)))
unfolding variant_from_al_rec append
variant_from_al_rec_lem nothing t taken = ap (λ ts. some (variant ts)) (append-nothing taken t)
variant_from_al_rec_lem (pack u args) t taken =
    variant_from_al_rec_lem args u (push_back taken t)
    ∙ ap (λ ts. some (variant ts)) (append-push_back taken t (pack u args))

-- A variant of two types or more.
abbrev pub IsVariantOfSeveral : Cpp → Type 0
IsVariantOfSeveral (variant (pack t (pack u args))) = Unit
IsVariantOfSeveral _ = ⊥

several :
    (t u : Cpp) (args : Cpps)
    → rebuilt (variant (pack t (pack u args))) ≡ some (variant (pack t (pack u args)))
unfolding rebuilt variant_args variant_from_al tail append
several t u args = variant_from_al_rec_lem args u (pack t nothing)

none-some : {c : Cpp} → none ≡ some c → ⊥
none-some h = cc

no_type : (c : Cpp) → ((none ≡ some c) ↔ ⊥) × (◌≡◌ {A = Option Cpp} none none ↔ (⊥ → ⊥))
no_type c = ((none-some, (λ h. absurd h)), ((λ _ h. h), (λ _. refl)))

-- The type that is built out of the list of a variant's types is the variant itself, and there is
-- one just for a variant of two types or more: a variant of one type has none, nor has any other type.
pub rebuilt_lem :
    (c : Cpp)
    → ((rebuilt c ≡ some c) ↔ IsVariantOfSeveral c)
      × ((rebuilt c ≡ none) ↔ (IsVariantOfSeveral c → ⊥))
unfolding rebuilt variant_args variant_from_al tail
rebuilt_lem (variant (pack t (pack u args))) =
    let e = several t u args in
    (((λ _. tt), (λ _. e)), ((λ h. absurd (none-some (sym h ∙ e))), (λ h. absurd (h tt))))
rebuilt_lem (variant (pack t nothing)) = no_type (variant (pack t nothing))
rebuilt_lem (variant nothing) = no_type (variant nothing)
rebuilt_lem (plain n) = no_type (plain n)
rebuilt_lem (optional c) = no_type (optional c)
rebuilt_lem (tuple cs) = no_type (tuple cs)
rebuilt_lem (function c cs) = no_type (function c cs)
