-- ===== src/Types/Gc/Keys.antt =====
-- Keys of the map of `GC`: which entries a pointer finds, after a change too.
use luapp.Prelude.{
  ℕ, List, [], ◌∷◌, true, none, some, nat_eq_iff, if◌then◌else◌, ◌≡◌, ◌↔◌, refl, arith,
}
use luapp.Types.Platform.{Platform}
use luapp.Types.Value.{
  LuaValue, boolean, int, double, string, nil, elipsis, function, userdata, table,
}
use luapp.Types.Gc.{same_key, count_of, set_count, drop_count}

module _ (P : Platform) where
  open P use {Double}

  -- A pointer to an object.
  abbrev pub IsReference : LuaValue Double → Type 0
  IsReference (function _) = Unit
  IsReference (userdata _) = Unit
  IsReference (table _) = Unit
  IsReference _ = ⊥

  pub same_key_left : (p k : LuaValue Double) → IsReference p → (same_key P k p ≡ true) ↔ (k ≡ p)
  unfolding same_key
  same_key_left (function p) (function k) r = ground (arith, nat_eq_iff k p)
  same_key_left (userdata p) (userdata k) r = ground (arith, nat_eq_iff k p)
  same_key_left (table p) (table k) r = ground (arith, nat_eq_iff k p)
  same_key_left (boolean _) k r = absurd r
  same_key_left (int _) k r = absurd r
  same_key_left (double _) k r = absurd r
  same_key_left (string _) k r = absurd r
  same_key_left nil k r = absurd r
  same_key_left (elipsis _) k r = absurd r
  same_key_left p k r = (λ h. cc, λ h. cc)

  pub same_key_right : (p k : LuaValue Double) → IsReference p → (same_key P p k ≡ true) ↔ (p ≡ k)
  unfolding same_key
  same_key_right (function p) (function k) r = ground (arith, nat_eq_iff p k)
  same_key_right (userdata p) (userdata k) r = ground (arith, nat_eq_iff p k)
  same_key_right (table p) (table k) r = ground (arith, nat_eq_iff p k)
  same_key_right (boolean _) k r = absurd r
  same_key_right (int _) k r = absurd r
  same_key_right (double _) k r = absurd r
  same_key_right (string _) k r = absurd r
  same_key_right nil k r = absurd r
  same_key_right (elipsis _) k r = absurd r
  same_key_right p k r = (λ h. cc, λ h. cc)

  module _ (p : LuaValue Double) (r : IsReference p) where
    pub count_of-set_count :
        (l : LuaValue Double) (n : ℕ) (m : List (LuaValue Double × ℕ))
        → count_of P p (set_count P l n m) ≡ (if same_key P l p then some n else count_of P p m)
    unfolding count_of set_count
    count_of-set_count l n [] = refl
    count_of-set_count l n ((k, c) ∷ m) = ground (
      arith,
      same_key_left p l r,
      same_key_left p k r,
      same_key_right p l r,
      count_of-set_count l n m,
    )

    pub count_of-drop_count :
        (l : LuaValue Double) (m : List (LuaValue Double × ℕ))
        → count_of P p (drop_count P l m) ≡ (if same_key P l p then none else count_of P p m)
    unfolding count_of drop_count
    count_of-drop_count l [] = ground (arith, same_key_left p l r)
    count_of-drop_count l ((k, c) ∷ m) = ground (
      arith,
      same_key_left p l r,
      same_key_left p k r,
      same_key_right p l r,
      count_of-drop_count l m,
    )
