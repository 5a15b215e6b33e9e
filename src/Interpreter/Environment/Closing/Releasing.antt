-- ===== src/Interpreter/Environment/Closing/Releasing.antt =====
-- What the release of a store's objects leaves of them, and of the counts of `GC`.
use luapp.Prelude.{
  length, true, Result, ℕ, zero, suc, ◌<◌, List, [], ◌∷◌, Bool, false, ◌||◌, Option, none, some,
  ◌==◌, eq_nat, eq_string, if◌then◌else◌, ok, ◌>>=◌, ◌≡◌, ◌≢◌, refl, ◌∙◌, ap, sym, subst, inl, inr,
  All, arith, nat_eq_iff, Bool-cases,
}
use luapp.Prelude.Map.{Map, find, put, erase, find-put, find-erase}
use luapp.Types.Platform.{Platform}
use luapp.Types.Value.{LuaValue, is_refcounted, function, table}
use luapp.Types.Gc.{
  Gc, count_of, set_count, drop_count, same_key, remove_counted, remove_reference,
  remove_value_reference,
}
use luapp.Interpreter.Environment.{
  ValueStore, Environment, delete_object, drop_value, release_within, release, is_one,
}
use luapp.Interpreter.Environment.Closing.{release_all}

module _ (P : Platform) where
  open P use {Double}

  -- No value is kept with the count 0.
  abbrev pub NoZero : Gc P → Type 0
  NoZero g = All (λ e. 0 < e.1) g.references

  set_count-positive :
      (l : LuaValue Double) (n : ℕ) (m : List (LuaValue Double × ℕ))
      → All (λ e. 0 < e.1) m
      → All (λ e. 0 < e.1) (set_count P l (suc n) m)
  unfolding set_count
  set_count-positive l n [] h = (omega arith, tt)
  set_count-positive l n ((k, c) ∷ m) h = elim (Bool-cases (same_key P k l)) [
    | inl e ↦ rw e (omega arith, h.1)
    | inr e ↦ rw e (h.0, set_count-positive l n m h.1)
  ]

  drop_count-positive :
      (l : LuaValue Double) (m : List (LuaValue Double × ℕ))
      → All (λ e. 0 < e.1) m
      → All (λ e. 0 < e.1) (drop_count P l m)
  unfolding drop_count
  drop_count-positive l [] h = tt
  drop_count-positive l ((k, c) ∷ m) h = elim (Bool-cases (same_key P k l)) [
    | inl e ↦ rw e (drop_count-positive l m h.1)
    | inr e ↦ rw e (h.0, drop_count-positive l m h.1)
  ]

  count_of-positive :
      (l : LuaValue Double) (m : List (LuaValue Double × ℕ))
      → All (λ e. 0 < e.1) m
      → count_of P l m ≢ some 0
  unfolding count_of
  count_of-positive l [] h = λ e. cc
  count_of-positive l ((k, c) ∷ m) h = elim (Bool-cases (same_key P k l)) [
    | inl e ↦ rw e (λ q. ground arith)
    | inr e ↦ rw e (count_of-positive l m h.1)
  ]

  remove_reference-NoZero :
      (l : LuaValue Double) (g : Gc P)
      → NoZero g
      → (g' : Gc P) × (remove_reference P l g ≡ ok g') × NoZero g'
  unfolding remove_reference remove_counted
  remove_reference-NoZero l g h =
      by_count (count_of P l g.references) (count_of-positive l g.references h)
    where
      by_count :
          (o : Option ℕ) → o ≢ some 0 → (g' : Gc P) × (remove_counted P l o g ≡ ok g') × NoZero g'
      by_count none ne = (g, refl, h)
      by_count (some zero) ne = absurd (ne refl)
      by_count (some (suc zero)) ne = (_, refl, drop_count-positive l g.references h)
      by_count (some (suc (suc n))) ne = (_, refl, set_count-positive l n g.references h)

  -- What one release makes of an object: it is deleted at the count 1.
  abbrev pub released : Option (LuaValue Double × ℕ) → Option (LuaValue Double × ℕ)
  released none = none
  released (some (v, zero)) = some (v, zero)
  released (some (v, suc zero)) = none
  released (some (v, suc (suc n))) = some (v, suc n)

  -- What has no destructor that releases something else.
  abbrev pub IsPlain : LuaValue Double → Type 0
  IsPlain (function _) = ⊥
  IsPlain (table _) = ⊥
  IsPlain _ = Unit

  -- The object at the address is there, with a count above 0, and at the count 1 it holds neither a
  -- function nor a table.
  abbrev pub Held : Environment P → ℕ → Type 0
  Held s a =
      (v : LuaValue Double) × (n : ℕ) × (find a s.values ≡ some (v, suc n)) × (n ≡ 0 → IsPlain v)

  delete_object-plain :
      (rel : ℕ → Environment P → Result (Environment P)) (b : Bool) (v : LuaValue Double)
      (s : Environment P)
      → IsPlain v
      → delete_object P rel b v s ≡ ok s
  unfolding delete_object
  delete_object-plain rel true (function f) s h = absurd h
  delete_object-plain rel true (table t) s h = absurd h
  delete_object-plain rel true _ s h = refl
  delete_object-plain rel false _ s h = refl

  at_address :
      (a b : ℕ) (m : Map ℕ (LuaValue Double × ℕ)) (o : Option (LuaValue Double × ℕ))
      → released (find a m) ≡ o
      → (if a == b then o else find b m) ≡ (if a == b then released (find b m) else find b m)
  at_address a b m o h = elim (Bool-cases (a == b)) [
    | inl q ↦ rw q (subst (λ x. o ≡ released (find x m)) ((nat_eq_iff a b).0 q) (sym h))
    | inr q ↦ rw q
  ]

  -- The reference that is dropped is the last one.
  abbrev last : LuaValue Double → Environment P → Bool
  last v s = is_one (count_of P v s.gc.references)

  release-Held :
      (a : ℕ) (s : Environment P)
      → Held s a
      → NoZero s.gc
      → (s' : Environment P) × (release P a s ≡ ok s')
        × NoZero s'.gc
        × (s'.local_values ≡ s.local_values)
        × ((b : ℕ)
            → find b s'.values ≡ (if a == b then released (find b s.values) else find b s.values))
  unfolding release release_within remove_value_reference drop_value
  release-Held a s (v, suc n, e, plain) h = (
    record s { values = put a (v, suc n) s.values },
    rw (release, release_within, e) refl,
    h,
    refl,
    λ b. find-put a b (v, suc n) s.values ∙ at_address a b s.values _ (ap released e),
  )
  release-Held a s (v, zero, e, plain) h = elim (Bool-cases (is_refcounted v)) [
    | inl r ↦
        let (g, p, h') = remove_reference-NoZero v s.gc h in
        (
          record s { values = erase a s.values; gc = g },
          rw
              (
                release,
                release_within,
                e,
                r,
                drop_value,
                p,
                delete_object-plain (release_within P (length s.values)) (last v s) v
                    (record s { values = erase a s.values; gc = g }) (plain refl),
              )
              refl,
          h',
          refl,
          λ b. find-erase a b s.values ∙ at_address a b s.values none (ap released e),
        )
    | inr r ↦ (
      record s { values = erase a s.values },
      rw (release, release_within, e, r) refl,
      h,
      refl,
      λ b. find-erase a b s.values ∙ at_address a b s.values none (ap released e),
    )
  ]

  -- Some name of the store is bound to the address.
  abbrev pub listed : ℕ → ValueStore → Bool
  listed b [] = false
  listed b ((n, a) ∷ store) = a == b || listed b store

  -- No two names hold one object.
  abbrev pub Unshared : ValueStore → Type 0
  Unshared [] = Unit
  Unshared ((n, a) ∷ store) = (listed a store ≡ false) × Unshared store

  abbrev pub AllHeld : Environment P → ValueStore → Type 0
  AllHeld s store = All (λ e. Held s e.1) store

  -- What a release of each object of the store makes of the object at `b`.
  abbrev pub after_release :
      ValueStore → ℕ → Option (LuaValue Double × ℕ) → Option (LuaValue Double × ℕ)
  after_release store b o = if listed b store then released o else o

  ==-flip : (a b : ℕ) → (a == b) ≡ false → (b == a) ≡ false
  ==-flip a b h = ground arith

  AllHeld-kept :
      (a : ℕ) (store : ValueStore) (s s' : Environment P)
      → listed a store ≡ false
      → ((b : ℕ)
          → find b s'.values ≡ (if a == b then released (find b s.values) else find b s.values))
      → AllHeld s store
      → AllHeld s' store
  AllHeld-kept a [] s s' out k h = tt
  AllHeld-kept a ((n, c) ∷ store) s s' out k h = elim (Bool-cases (c == a)) [
    | inl q ↦ (let o = rw q at out in cc)
    | inr q ↦ (
      (h.0.0, h.0.1, k c ∙ (rw (==-flip c a q)) ∙ h.0.2, h.0.3),
      AllHeld-kept a store s s' (rw q at out) k h.1,
    )
  ]

  released_twice :
      (a b : ℕ) (store : ValueStore) (o : Option (LuaValue Double × ℕ))
      → listed a store ≡ false
      → after_release store b (if a == b then released o else o)
        ≡ (if a == b || listed b store then released o else o)
  released_twice a b store o out = elim (Bool-cases (a == b)) [
    | inl q ↦ rw (q, subst (λ x. listed x store ≡ false) ((nat_eq_iff a b).0 q) out)
    | inr q ↦ rw q
  ]

  pub release_all-Held :
      (store : ValueStore) (s : Environment P)
      → AllHeld s store
      → Unshared store
      → NoZero s.gc
      → (s' : Environment P) × (release_all P store s ≡ ok s')
        × NoZero s'.gc
        × (s'.local_values ≡ s.local_values)
        × ((b : ℕ) → find b s'.values ≡ after_release store b (find b s.values))
  unfolding release_all
  release_all-Held [] s held one h = (s, refl, h, refl, λ b. refl)
  release_all-Held ((n, a) ∷ store) s held one h =
      let (s₁, p, h₁, l₁, k₁) = release-Held a s held.0 h in
      let (s₂, q, h₂, l₂, k₂) =
        release_all-Held store s₁ (AllHeld-kept a store s s₁ one.0 k₁ held.1) one.1 h₁ in
      (
        s₂,
        ap (λ r. r >>= release_all P store) p ∙ q,
        h₂,
        l₂ ∙ l₁,
        λ b.
            k₂ b
            ∙ ap (after_release store b) (k₁ b)
            ∙ released_twice a b store (find b s.values) one.0,
      )
