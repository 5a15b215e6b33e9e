-- ===== src/Interpreter/Stacks/Stores.antt =====
-- interpreter.cpp and types.cpp: changes of the stores and of the objects leave the stacks as they are.
use luapp.Prelude.{
  Bool, true, false, zero, suc, length, ℕ, List, String, [], ◌∷◌, none, some, eq_nat, eq_string,
  inl, inr, Result, ok, err, Result-cases, Option-cases, Bool-cases, ◌>>=◌, ◌≡◌, refl, ◌∙◌,
}
use luapp.Prelude.Map.{Map, find, put}
use luapp.Analyzer.Scope.{Block}
use luapp.Analyzer.State.{at, touch, equal_range}
use luapp.Types.Platform.{Platform}
use luapp.Types.Value.{LuaValue, function, is_refcounted}
use luapp.Types.Gc.{remove_reference, remove_value_reference}
use luapp.Types.Var.{Place, object, shared_nil}
use luapp.Interpreter.Environment.{
  ValueStore, Environment, Code, release_names, destroy_function, delete_object, drop_value,
  destroy, release_within, release, retain,
}
use luapp.Interpreter.Environment.Closing.{
  release_all, clear_block, forget_store, erase_block, erase_blocks, close, close_store,
  close_blocks, close_function,
}
use luapp.Interpreter.Machine.{write, set_local}
use luapp.Interpreter.Loops.{set_store}
use luapp.Interpreter.Stacks.{SameStacks}

module _ {P : Platform} where
  open P use {Double}

  -- If there is a result, its stacks are the same.
  abbrev pub Fixed : Environment P → Result (Environment P) → Type 0
  Fixed s (ok t) = SameStacks s t
  Fixed s (err e) = Unit

  Fixed-trans :
      (s t : Environment P) (r : Result (Environment P)) → SameStacks s t → Fixed t r → Fixed s r
  Fixed-trans s t (ok u) p q = q ∙ p
  Fixed-trans s t (err e) p q = tt

  >>=-Fixed :
      (s : Environment P) (r : Result (Environment P))
      (next : Environment P → Result (Environment P))
      → Fixed s r
      → ((t : Environment P) → Fixed t (next t))
      → Fixed s (r >>= next)
  >>=-Fixed s (ok t) next p h = Fixed-trans s t (next t) p (h t)
  >>=-Fixed s (err e) next p h = tt

  module _ (rel : ℕ → Environment P → Result (Environment P))
      (h : (a : ℕ) (s : Environment P) → Fixed s (rel a s)) where
    release_names-Fixed :
        (store : ValueStore) (s : Environment P) → Fixed s (release_names P rel store s)
    unfolding release_names
    release_names-Fixed [] s = refl
    release_names-Fixed ((name, a) ∷ store) s =
        >>=-Fixed s (rel a s) (release_names P rel store) (h a s) (release_names-Fixed store)

    destroy_function-Fixed : (f : ℕ) (s : Environment P) → Fixed s (destroy_function P rel f s)
    unfolding destroy_function
    destroy_function-Fixed f s = elim (Option-cases (find f s.code)) [
      | inl e ↦ rw (destroy_function, e) tt
      | inr (Code.c b, e) ↦ rw (destroy_function, e) refl
      | inr (Code.pure formals body, e) ↦ elim (Option-cases (find f s.closures)) [
        | inl e' ↦ rw (destroy_function, e, e') tt
        | inr (names, e') ↦ rw (destroy_function, e, e') (release_names-Fixed names _)
      ]
    ]

    delete_object-Fixed :
        (b : Bool) (v : LuaValue Double) (s : Environment P) → Fixed s (delete_object P rel b v s)
    unfolding delete_object
    delete_object-Fixed true (function f) s = destroy_function-Fixed f s
    delete_object-Fixed true _ s = refl
    delete_object-Fixed false _ s = refl

    pub drop_value-Fixed :
        (v : LuaValue Double) (s : Environment P) → Fixed s (drop_value P rel v s)
    unfolding drop_value
    drop_value-Fixed v s = elim (Result-cases (remove_reference P v s.gc)) [
      | inl (g, e) ↦ rw (drop_value, e) (delete_object-Fixed _ v _)
      | inr (x, e) ↦ rw (drop_value, e) tt
    ]

    destroy-Fixed :
        (a : ℕ) (v : LuaValue Double) (s : Environment P) → Fixed s (destroy P rel a v s)
    destroy-Fixed a v s = elim (Bool-cases (is_refcounted v)) [
      | inr e ↦ rw e refl
      | inl e ↦ rw e (drop_value-Fixed v _)
    ]

  release_within-Fixed : (fuel a : ℕ) (s : Environment P) → Fixed s (release_within P fuel a s)
  unfolding release_within
  release_within-Fixed zero a s = tt
  release_within-Fixed (suc fuel) a s = elim (Option-cases (find a s.values)) [
    | inl e ↦ rw (release_within, e) tt
    | inr ((v, n), e) ↦ elim (Result-cases (remove_value_reference n)) [
      | inr (x, e') ↦ rw (release_within, e, e') tt
      | inl (none, e') ↦
          rw (release_within, e, e')
            (destroy-Fixed (release_within P fuel) (release_within-Fixed fuel) a v s)
      | inl (some n', e') ↦ rw (release_within, e, e') refl
    ]
  ]

  pub release-Fixed : (a : ℕ) (s : Environment P) → Fixed s (release P a s)
  unfolding release
  release-Fixed a s = release_within-Fixed (suc (length s.values)) a s

  release_all-Fixed : (store : ValueStore) (s : Environment P) → Fixed s (release_all P store s)
  unfolding release_all
  release_all-Fixed [] s = refl
  release_all-Fixed ((name, a) ∷ store) s =
      >>=-Fixed s (release P a s) (release_all P store) (release-Fixed a s)
        (release_all-Fixed store)

  clear-Fixed :
      (ctx : Block) (s : Environment P) (l : List (Map Block ValueStore))
      → s.local_values ≡ l
      → Fixed s (clear_block P ctx s)
  unfolding clear_block
  clear-Fixed ctx s [] q = rw (clear_block, q) tt
  clear-Fixed ctx s (top ∷ below) q =
      let s₀ = record s { local_values = top ∷ below } in
      let s₁ = record s { local_values = touch [] ctx top ∷ below } in
      rw (clear_block, q) (Fixed-trans s₀ s₁ _ refl (release_all-Fixed (at [] ctx top) s₁))

  pub clear_block-Fixed : (ctx : Block) (s : Environment P) → Fixed s (clear_block P ctx s)
  clear_block-Fixed ctx s = clear-Fixed ctx s s.local_values refl

  forget-Fixed :
      (ctx : Block) (s : Environment P) (l : List (Map Block ValueStore))
      → s.local_values ≡ l
      → Fixed s (forget_store P ctx s)
  unfolding forget_store
  forget-Fixed ctx s [] q = rw (forget_store, q) tt
  forget-Fixed ctx s (top ∷ below) q = rw (forget_store, q) refl

  pub erase_block-Fixed : (ctx : Block) (s : Environment P) → Fixed s (erase_block P ctx s)
  unfolding erase_block
  erase_block-Fixed ctx s =
      >>=-Fixed s (clear_block P ctx s) (forget_store P ctx) (clear_block-Fixed ctx s)
        (λ t. forget-Fixed ctx t t.local_values refl)

  pub erase_blocks-Fixed : (bs : List Block) (s : Environment P) → Fixed s (erase_blocks P bs s)
  unfolding erase_blocks
  erase_blocks-Fixed [] s = refl
  erase_blocks-Fixed (b ∷ bs) s =
      >>=-Fixed s (erase_block P b s) (erase_blocks P bs) (erase_block-Fixed b s)
        (erase_blocks-Fixed bs)

  set_local-cases :
      (block : Block) (name : String) (a : ℕ) (s : Environment P) (l : List (Map Block ValueStore))
      → s.local_values ≡ l
      → Fixed s (set_local P block name a s)
  unfolding set_local
  set_local-cases block name a s [] q = rw (set_local, q) tt
  set_local-cases block name a s (top ∷ below) q = rw (set_local, q) refl

  pub set_local-Fixed :
      (block : Block) (name : String) (a : ℕ) (s : Environment P)
      → Fixed s (set_local P block name a s)
  set_local-Fixed block name a s = set_local-cases block name a s s.local_values refl

  set_store-cases :
      (block : Block) (store : ValueStore) (s : Environment P) (l : List (Map Block ValueStore))
      → s.local_values ≡ l
      → Fixed s (set_store P block store s)
  unfolding set_store
  set_store-cases block store s [] q = rw (set_store, q) tt
  set_store-cases block store s (top ∷ below) q = rw (set_store, q) refl

  pub set_store-Fixed :
      (block : Block) (store : ValueStore) (s : Environment P) → Fixed s (set_store P block store s)
  set_store-Fixed block store s = set_store-cases block store s s.local_values refl

  pub write-Fixed :
      (p : Place Double) (v : LuaValue Double) (s : Environment P) → Fixed s (write P p v s)
  unfolding write
  write-Fixed (object a) v s = elim (Option-cases (find a s.values)) [
    | inl e ↦ rw (write, e) tt
    | inr (x, e) ↦ rw (write, e) refl
  ]
  write-Fixed (Place.field t k) v s = elim (Option-cases (find t s.tables)) [
    | inl e ↦ rw (write, e) tt
    | inr (x, e) ↦ rw (write, e) refl
  ]
  write-Fixed shared_nil v s = tt

  retain-Fixed : (a : ℕ) (s : Environment P) → Fixed s (retain P a s)
  unfolding retain
  retain-Fixed a s = elim (Option-cases (find a s.values)) [
    | inl e ↦ rw (retain, e) tt
    | inr (x, e) ↦ rw (retain, e) refl
  ]

  close-Fixed : (f : ℕ) (name : String) (a : ℕ) (s : Environment P) → Fixed s (close P f name a s)
  unfolding close
  close-Fixed f name a s = elim (Option-cases (find f s.closures)) [
    | inl e ↦ rw (close, e) tt
    | inr (names, e) ↦ elim (Option-cases (find name names)) [
      | inr (x, e') ↦ rw (close, e, e') tt
      | inl e' ↦
          rw (close, e, e')
            (Fixed-trans s (record s { closures = put f (put name a names) s.closures }) _ refl
              (retain-Fixed a _))
    ]
  ]

  close_store-Fixed :
      (f : ℕ) (store : ValueStore) (s : Environment P) → Fixed s (close_store P f store s)
  unfolding close_store
  close_store-Fixed f [] s = refl
  close_store-Fixed f ((name, a) ∷ store) s =
      >>=-Fixed s (close P f name a s) (close_store P f store) (close-Fixed f name a s)
        (close_store-Fixed f store)

  close_blocks-cases :
      (f : ℕ) (contexts : List Block) (s : Environment P) (l : List (Map Block ValueStore))
      → s.local_values ≡ l
      → Fixed s (close_blocks P f contexts s)
  unfolding close_blocks
  close_blocks-cases f [] s l q = refl
  close_blocks-cases f (ctx ∷ contexts) s [] q = rw (close_blocks, q) tt
  close_blocks-cases f (ctx ∷ contexts) s (top ∷ below) q =
      let s₀ = record s { local_values = top ∷ below } in
      let s₁ = record s { local_values = touch [] ctx top ∷ below } in
      rw (close_blocks, q)
        (Fixed-trans s₀ s₁ _ refl (
          >>=-Fixed s₁ (close_store P f (at [] ctx top) s₁) (close_blocks P f contexts)
            (close_store-Fixed f (at [] ctx top) s₁)
            (λ t. close_blocks-cases f contexts t t.local_values refl)))

  pub close_function-Fixed :
      (f : ℕ) (body : Block) (s : Environment P) → Fixed s (close_function P f body s)
  unfolding close_function
  close_function-Fixed f body s =
      close_blocks-cases f (equal_range body s.listener.functions_parents) s s.local_values refl
