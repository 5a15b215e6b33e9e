-- ===== src/Interpreter/Stacks/Actions.antt =====
-- interpreter.cpp: the steps that the visitors are made of leave the stacks as they are.
use luapp.Prelude.{
  ℕ, zero, suc, List, String, [], ◌∷◌, Option, none, some, eq_nat, eq_string, inl, inr, Error,
  Result, ok, err, Result-cases, refl,
}
use luapp.Analyzer.Scope.{Block}
use luapp.Types.Platform.{Platform}
use luapp.Types.Value.{LuaValue}
use luapp.Types.Table.{Table}
use luapp.Types.Var.{Var, Place, get}
use luapp.Interpreter.Environment.{ValueStore, Environment, drop_value, release}
use luapp.Interpreter.Environment.Closing.{clear_block, erase_block, close_function}
use luapp.Interpreter.Machine.{
  Thrown, give, throw, fail, lift, gets, modify, attempt, child, child_at, heap, read, write,
  new_value, new_table, new_function, find_local, set_local, count_up, count_down,
}
use luapp.Interpreter.Loops.{set_store}
use luapp.Interpreter.Stacks.{SameStacks, Base, Keeps, still}
use luapp.Interpreter.Stacks.Stores.{
  Fixed, clear_block-Fixed, erase_block-Fixed, set_local-Fixed, set_store-Fixed, write-Fixed,
  close_function-Fixed, release-Fixed, drop_value-Fixed,
}

module _ {P : Platform} {base : Base} where
  open P use {Double}

  pub give-Keeps : {A : Type 0} (a : A) → Keeps {P = P} base (give a)
  give-Keeps a = still λ s. refl

  pub throw-Keeps : {A : Type 0} (x : Thrown Double) → Keeps {P = P} {A = A} base (throw x)
  throw-Keeps x = still λ s. refl

  pub fail-Keeps : {A : Type 0} (e : Error) → Keeps {P = P} {A = A} base (fail e)
  fail-Keeps e = still λ s. refl

  pub lift-Keeps : {A : Type 0} (r : Result A) → Keeps {P = P} base (lift r)
  lift-Keeps (ok a) = still λ s. refl
  lift-Keeps (err e) = still λ s. refl

  -- A reading of the state that can fail.
  pub view-Keeps : {A : Type 0} (f : Environment P → Result A) → Keeps base (λ s. lift (f s) s)
  view-Keeps f =
      still λ s. elim (Result-cases (f s)) [ inl (a, e) ↦ rw e refl | inr (x, e) ↦ rw e refl ]

  pub read-Keeps : (x : Var Double) → Keeps base (read P x)
  read-Keeps x = view-Keeps λ s. get (heap P s) x

  pub gets-Keeps : {A : Type 0} (f : Environment P → A) → Keeps base (gets f)
  gets-Keeps f = still λ s. refl

  pub modify-Keeps :
      (f : Environment P → Environment P)
      → ((s : Environment P) → SameStacks s (f s))
      → Keeps base (modify f)
  modify-Keeps f h = still h

  pub attempt-Keeps :
      (f : Environment P → Result (Environment P))
      → ((s : Environment P) → Fixed s (f s))
      → Keeps base (attempt f)
  attempt-Keeps f h = still λ s. elim (Result-cases (f s)) [
    | inl (t, e) ↦ (let q = h s in rw (attempt, e) (rw e at q))
    | inr (x, e) ↦ rw (attempt, e) refl
  ]

  pub child-Keeps : {A : Type 0} (o : Option A) → Keeps {P = P} base (child o)
  child-Keeps none = still λ s. refl
  child-Keeps (some a) = still λ s. refl

  pub child_at-Keeps : {A : Type 0} (i : ℕ) (l : List A) → Keeps {P = P} base (child_at i l)
  child_at-Keeps i [] = still λ s. refl
  child_at-Keeps zero (a ∷ l) = still λ s. refl
  child_at-Keeps (suc i) (a ∷ l) = child_at-Keeps i l

  pub new_value-Keeps : (v : LuaValue Double) → Keeps base (new_value P v)
  unfolding new_value
  new_value-Keeps v = still λ s. refl

  pub new_table-Keeps : (t : Table P) → Keeps base (new_table P t)
  unfolding new_table
  new_table-Keeps t = still λ s. refl

  pub new_function-Keeps : (names : List String) (b : Block) → Keeps base (new_function P names b)
  unfolding new_function
  new_function-Keeps names b = still λ s. refl

  pub count_up-Keeps : (v : LuaValue Double) → Keeps base (count_up P v)
  count_up-Keeps v = still λ s. refl

  pub count_down-Keeps : (v : LuaValue Double) → Keeps base (count_down P v)
  count_down-Keeps v =
      attempt-Keeps (drop_value P (release P) v) (drop_value-Fixed (release P) release-Fixed v)

  pub set_local-Keeps :
      (b : Block) (name : String) (a : ℕ) → Keeps base (attempt (set_local P b name a))
  set_local-Keeps b name a = attempt-Keeps (set_local P b name a) (set_local-Fixed b name a)

  pub find_local-Keeps :
      (b : Block) (name : String) → Keeps base (λ s. lift (find_local P b name s) s)
  find_local-Keeps b name = view-Keeps (find_local P b name)

  pub set_store-Keeps :
      (b : Block) (store : ValueStore) → Keeps base (attempt (set_store P b store))
  set_store-Keeps b store = attempt-Keeps (set_store P b store) (set_store-Fixed b store)

  pub write-Keeps : (p : Place Double) (v : LuaValue Double) → Keeps base (attempt (write P p v))
  write-Keeps p v = attempt-Keeps (write P p v) (write-Fixed p v)

  pub release-Keeps : (a : ℕ) → Keeps base (attempt (release P a))
  release-Keeps a = attempt-Keeps (release P a) (release-Fixed a)

  pub clear_block-Keeps : (b : Block) → Keeps base (attempt (clear_block P b))
  clear_block-Keeps b = attempt-Keeps (clear_block P b) (clear_block-Fixed b)

  pub erase_block-Keeps : (b : Block) → Keeps base (attempt (erase_block P b))
  erase_block-Keeps b = attempt-Keeps (erase_block P b) (erase_block-Fixed b)

  pub close_function-Keeps : (f : ℕ) (b : Block) → Keeps base (attempt (close_function P f b))
  close_function-Keeps f b = attempt-Keeps (close_function P f b) (close_function-Fixed f b)
