-- ===== src/Types/Table/Fields.antt =====
-- A table as one partial function from keys to values: what is stored is read back, and nothing
-- else changes.
use luapp.Prelude.{
  err, runtime_error, List, [], ◌∷◌, Bool, true, false, Option, none, some, Eq, eq_nat, eq_string,
  ok, ◌↔◌, ◌≡◌, ◌≢◌, refl, ap, arith, Bool-cases, inl, inr,
}
use luapp.Prelude.Map.{Map, find, put, find-put, find-put_self}
use luapp.Types.Platform.{Platform}
use luapp.Types.Value.{
  Values, LuaValue, boolean, int, double, string, nil, elipsis, function, userdata, table,
}
use luapp.Types.Table.{
  Table, add_field, Ref, shared_nil, slot, field_ref, subscript, find_double, put_double,
  same_double, eq_int,
}

module _ (P : Platform) where
  open P use {Double, lt}

  -- The abstract view: what a table holds under a key. Nil and an elipsis are no keys.
  unfoldable pub field : LuaValue Double → Table P → Option (LuaValue Double)
  field (int i) t = find i t.int_fields
  field (double d) t = find_double P d t.double_fields
  field (boolean true) t = some t.true_field
  field (boolean false) t = some t.false_field
  field (string s) t = find s t.string_fields
  field (function p) t = find p t.function_fields
  field (table p) t = find p t.table_fields
  field (userdata p) t = find p t.userdata_fields
  field nil t = none
  field (elipsis _) t = none

  abbrev pub IsKey : LuaValue Double → Type 0
  IsKey nil = ⊥
  IsKey (elipsis _) = ⊥
  IsKey (double d) = lt d d ≡ false
  IsKey _ = Unit

  abbrev pub BothDouble : LuaValue Double → LuaValue Double → Type 0
  BothDouble (double a) (double b) = Unit
  BothDouble _ _ = ⊥

  find_double-put_self :
      (d : Double) (v : LuaValue Double) (m : List (Double × LuaValue Double))
      → lt d d ≡ false
      → find_double P d (put_double P d v m) ≡ some v
  unfolding find_double put_double
  find_double-put_self d v [] e = rw e
  find_double-put_self d v ((j, w) ∷ m) e = elim (Bool-cases (same_double P j d)) [
    | inl h ↦ rw h (rw h)
    | inr h ↦ rw h (rw h (find_double-put_self d v m e))
  ]

  find-put_ne :
      {K : Type 0} ⦃q : Eq K⦄ (k j : K) (v : LuaValue Double) (m : Map K (LuaValue Double))
      → k ≢ j
      → find j (put k v m) ≡ find j m
  find-put_ne ⦃q⦄ k j v m ne = ground (arith, find-put k j v m, q.beq_iff k j)

  -- A value stored under a key is read back under that key (of a double it is enough that it is not
  -- less than itself).
  field-add_field_self :
      (k v : LuaValue Double) (t : Table P) → IsKey k → field k (add_field P k v t) ≡ some v
  unfolding field add_field
  field-add_field_self (int i) v t h = find-put_self i v t.int_fields
  field-add_field_self (double d) v t h = find_double-put_self d v t.double_fields h
  field-add_field_self (boolean true) v t h = refl
  field-add_field_self (boolean false) v t h = refl
  field-add_field_self (string s) v t h = find-put_self s v t.string_fields
  field-add_field_self (function p) v t h = find-put_self p v t.function_fields
  field-add_field_self (userdata p) v t h = find-put_self p v t.userdata_fields
  field-add_field_self (table p) v t h = find-put_self p v t.table_fields
  field-add_field_self nil v t h = absurd h
  field-add_field_self (elipsis _) v t h = absurd h

  field-add_field_ne :
      (k j v : LuaValue Double) (t : Table P)
      → k ≢ j
      → (BothDouble k j → ⊥)
      → field j (add_field P k v t) ≡ field j t
  unfolding field add_field
  field-add_field_ne (int i) (int j) v t ne nd =
      find-put_ne i j v t.int_fields (λ e. ne (ap (λ x. int x) e))
  field-add_field_ne (string i) (string j) v t ne nd =
      find-put_ne i j v t.string_fields (λ e. ne (ap (λ x. string x) e))
  field-add_field_ne (function i) (function j) v t ne nd =
      find-put_ne i j v t.function_fields (λ e. ne (ap (λ x. function x) e))
  field-add_field_ne (userdata i) (userdata j) v t ne nd =
      find-put_ne i j v t.userdata_fields (λ e. ne (ap (λ x. userdata x) e))
  field-add_field_ne (table i) (table j) v t ne nd =
      find-put_ne i j v t.table_fields (λ e. ne (ap (λ x. table x) e))
  field-add_field_ne (double i) (double j) v t ne nd = absurd (nd tt)
  field-add_field_ne (boolean true) (boolean true) v t ne nd = absurd (ne refl)
  field-add_field_ne (boolean false) (boolean false) v t ne nd = absurd (ne refl)
  field-add_field_ne (boolean true) (boolean false) v t ne nd = refl
  field-add_field_ne (boolean false) (boolean true) v t ne nd = refl
  field-add_field_ne (boolean true) (int _) v t ne nd = refl
  field-add_field_ne (boolean true) _ v t ne nd = refl
  field-add_field_ne (boolean false) (int _) v t ne nd = refl
  field-add_field_ne (boolean false) _ v t ne nd = refl
  field-add_field_ne k (boolean true) v t ne nd = refl
  field-add_field_ne k (boolean false) v t ne nd = refl
  field-add_field_ne _ _ v t ne nd = refl

  -- Storing `v` under the key `k`: it is read back under `k`, and the other keys keep what they hold.
  -- (Of two doubles the second part says nothing: the map compares them by `<`.)
  pub add_field_lem :
      (k v : LuaValue Double) (t : Table P)
      → IsKey k
      → (field k (add_field P k v t) ≡ some v)
        × ((j : LuaValue Double)
            → k ≢ j
            → (BothDouble k j → ⊥)
            → field j (add_field P k v t) ≡ field j t)
  add_field_lem k v t h =
      (field-add_field_self k v t h, λ j ne nd. field-add_field_ne k j v t ne nd)

  -- What a reference reads.
  unfoldable pub value_at : Ref P → Table P → LuaValue Double
  value_at shared_nil t = nil
  value_at (slot k) t = elim (field k t) [ none ↦ nil | some v ↦ v ]

  abbrev pub or_nil : Option (LuaValue Double) → LuaValue Double
  or_nil none = nil
  or_nil (some v) = v

  subscript-field_ref :
      (k : LuaValue Double) (set_nil : Bool) (t : Table P)
      → IsKey k
      → subscript P k set_nil t ≡ ok (field_ref P set_nil k (field k t) t)
  unfolding subscript field field_ref
  subscript-field_ref (int i) s t h = refl
  subscript-field_ref (double d) s t h = refl
  subscript-field_ref (boolean true) s t h = refl
  subscript-field_ref (boolean false) s t h = refl
  subscript-field_ref (string x) s t h = refl
  subscript-field_ref (function p) s t h = refl
  subscript-field_ref (userdata p) s t h = refl
  subscript-field_ref (table p) s t h = refl
  subscript-field_ref nil s t h = absurd h
  subscript-field_ref (elipsis _) s t h = absurd h

  -- The reference that the getter gives for a key with the entry `o`.
  record Got (k : LuaValue Double) (set_nil : Bool) (o : Option (LuaValue Double)) (t : Table P)
      (g : Ref P × Table P) : Type 0 where
    reads : value_at g.0 g.1 ≡ or_nil o
    keeps : (j : LuaValue Double) → k ≢ j → (BothDouble k j → ⊥) → field j g.1 ≡ field j t
    shared : (g.0 ≡ shared_nil) ↔ ((set_nil ≡ false) × (o ≡ none))
    unchanged : (set_nil ≡ false) → g.1 ≡ t

  field_ref-Got :
      (k : LuaValue Double) (set_nil : Bool) (o : Option (LuaValue Double)) (t : Table P)
      → IsKey k
      → field k t ≡ o
      → Got k set_nil o t (field_ref P set_nil k o t)
  unfolding field_ref value_at
  field_ref-Got k s (some v) t h e = record {
    reads = rw (e, value_at);
    keeps = λ j ne nd. refl;
    shared = (λ q. cc, λ q. cc);
    unchanged = λ q. refl;
  }
  field_ref-Got k true none t h e = record {
    reads = rw (field-add_field_self k nil t h, value_at);
    keeps = λ j ne nd. field-add_field_ne k j nil t ne nd;
    shared = (λ q. cc, λ q. cc);
    unchanged = λ q. cc;
  }
  field_ref-Got k false none t h e = record {
    reads = refl;
    keeps = λ j ne nd. refl;
    shared = (λ q. (refl, refl), λ q. refl);
    unchanged = λ q. refl;
  }

  -- What looking up a key gives.
  abbrev pub Subscripted : LuaValue Double → Bool → Table P → Type 0
  Subscripted k set_nil t =
      (r : Ref P) × (t' : Table P) × (subscript P k set_nil t ≡ ok (r, t'))
      × (value_at r t' ≡ or_nil (field k t))
      × ((j : LuaValue Double) → k ≢ j → (BothDouble k j → ⊥) → field j t' ≡ field j t)
      × ((r ≡ shared_nil) ↔ ((set_nil ≡ false) × (field k t ≡ none)))
      × ((set_nil ≡ false) → t' ≡ t)

  subscript-Subscripted :
      (k : LuaValue Double) (set_nil : Bool) (t : Table P) → IsKey k → Subscripted k set_nil t
  subscript-Subscripted k set_nil t h =
      let got = field_ref-Got k set_nil (field k t) t h refl in
      (
        (field_ref P set_nil k (field k t) t).0,
        (field_ref P set_nil k (field k t) t).1,
        subscript-field_ref k set_nil t h,
        got.reads,
        got.keeps,
        got.shared,
        got.unchanged,
      )

  -- Looking up a value. A key (of a double it is enough that it is not below itself): the reference
  -- reads what the table holds under the key, or nil; no other key changes, except that for a key
  -- that is a double nothing is said of other doubles; the reference is the shared nil exactly when
  -- the key is missing and `set_nil` is false; and without `set_nil` the table stays as it is. Nil
  -- and an elipsis are refused, each by its exception.
  pub subscript_lem :
      (k : LuaValue Double) (set_nil : Bool) (t : Table P)
      → (IsKey k → Subscripted k set_nil t)
        × (k ≡ nil → subscript P k set_nil t ≡ err (runtime_error "No nil allowed in table"))
        × ((vs : Values Double)
            → k ≡ elipsis vs
            → subscript P k set_nil t ≡ err (runtime_error "No elipsis allowed in table"))
  unfolding subscript
  subscript_lem k set_nil t = (
    subscript-Subscripted k set_nil t,
    λ e. ap (λ x. subscript P x set_nil t) e,
    λ vs e. ap (λ x. subscript P x set_nil t) e,
  )
