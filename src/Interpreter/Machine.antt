-- ===== src/Interpreter/Machine.antt =====
-- How a part of the interpreter runs: it changes the environment, and returns or throws. What was
-- changed before a throw stays changed.
pub mod Storage
use luapp.Prelude.{
  ◌≡◌, refl, ◌⊎◌, inl, inr, ℕ, zero, suc, String, List, [], ◌∷◌, Option, none, some, eq_nat,
  eq_string, Error, undefined, Result, ok, err,
}
use luapp.Prelude.Map.{find, put}
use luapp.Analyzer.Scope.{Block}
use luapp.Analyzer.State.{at}
use luapp.Types.Platform.{Platform}
use luapp.Types.Value.{LuaValue, nil}
use luapp.Types.Table.{Table, add_field}
use luapp.Types.Table.Fields.{field}
use luapp.Types.Gc.{add_reference, remove_reference}
use luapp.Types.Var.{Var, Place, object, shared_nil, Heap, get}
use luapp.Interpreter.Environment.{Environment, ValueStore, Code, drop_value, release}

-- What is thrown: an exception for an error, or one of the control-flow exceptions.
pub data Thrown (D : Type 0) : Type 0 where
  error : Error → Thrown D
  break : Thrown D
  goto : String → Thrown D
  return : List (Var D) → Thrown D

pub data Outcome (D S A : Type 0) : Type 0 where
  done : A → S → Outcome D S A
  thrown : Thrown D → S → Outcome D S A

pub Outcome-cases :
    {D S A : Type 0} (o : Outcome D S A)
    → ((a : A) × (s : S) × (o ≡ done a s)) ⊎ ((x : Thrown D) × (s : S) × (o ≡ thrown x s))
Outcome-cases (done a s) = inl (a, s, refl)
Outcome-cases (thrown x s) = inr (x, s, refl)

abbrev pub Action : Type 0 → Type 0 → Type 0 → Type 0
Action D S A = S → Outcome D S A

infixl 5 ◌>>=◌ ◌>>◌
abbrev pub ◌>>=◌ : {D S A B : Type 0} → Action D S A → (A → Action D S B) → Action D S B
◌>>=◌ run next s = elim (run s) [ done a s' ↦ next a s' | thrown x s' ↦ thrown x s' ]

module _ {D S A B : Type 0} (run : Action D S A) (next : A → Action D S B) (s : S) where
  pub >>=-done : {a : A} {s' : S} → run s ≡ done a s' → (run >>= next) s ≡ next a s'
  >>=-done e = rw (e, ◌>>=◌)

  pub >>=-thrown : {x : Thrown D} {s' : S} → run s ≡ thrown x s' → (run >>= next) s ≡ thrown x s'
  >>=-thrown e = rw (e, ◌>>=◌)

abbrev pub ◌>>◌ : {D S B : Type 0} → Action D S (Unit {0}) → Action D S B → Action D S B
run >> after = run >>= λ _. after

module _ {D S : Type 0} where
  abbrev pub give : {A : Type 0} → A → Action D S A
  give a s = done a s

  abbrev pub throw : {A : Type 0} → Thrown D → Action D S A
  throw x s = thrown x s

  abbrev pub fail : {A : Type 0} → Error → Action D S A
  fail e s = thrown (error e) s

  abbrev pub lift : {A : Type 0} → Result A → Action D S A
  lift (ok a) s = done a s
  lift (err e) s = thrown (error e) s

  abbrev pub gets : {A : Type 0} → (S → A) → Action D S A
  gets f s = done (f s) s

  abbrev pub modify : (S → S) → Action D S (Unit {0})
  modify f s = done tt (f s)

  abbrev pub attempt : (S → Result S) → Action D S (Unit {0})
  attempt f s = elim (f s) [ ok s' ↦ done tt s' | err e ↦ thrown (error e) s ]

  -- A child of a node that the source follows without a test.
  abbrev pub child : {A : Type 0} → Option A → Action D S A
  child none = fail undefined
  child (some a) = give a

  -- `v[i]` of a vector that may be shorter.
  abbrev pub child_at : {A : Type 0} → ℕ → List A → Action D S A
  child_at i [] = fail undefined
  child_at zero (a ∷ as') = give a
  child_at (suc i) (a ∷ as') = child_at i as'

  unfoldable pub map_all : {A B : Type 0} → (A → Action D S B) → List A → Action D S (List B)
  map_all f [] = give []
  map_all f (a ∷ as') = f a >>= λ b. map_all f as' >>= λ bs. give (b ∷ bs)

module _ (P : Platform) where
  open P use {Double}

  abbrev pub M : Type 0 → Type 0
  M A = Action Double (Environment P) A

  -- The values behind the pointers.
  unfoldable pub heap : Environment P → Heap Double
  heap s (object a) = elim (find a s.values) [ none ↦ none | some (v, _) ↦ some v ]
  heap s (Place.field t k) = elim (find t s.tables) [ none ↦ none | some fields ↦ field P k fields ]
  heap s shared_nil = some nil

  abbrev pub read : Var Double → M (LuaValue Double)
  read x s = lift (get (heap s) x) s

  -- `place->value() = v`. No caller writes the shared nil.
  unfoldable pub write : Place Double → LuaValue Double → Environment P → Result (Environment P)
  write (object a) v s = elim (find a s.values) [
    | none ↦ err undefined
    | some (_, n) ↦ ok (record s { values = put a (v, n) s.values })
  ]
  write (Place.field t k) v s = elim (find t s.tables) [
    | none ↦ err undefined
    | some fields ↦ ok (record s { tables = put t (add_field P k v fields) s.tables })
  ]
  write shared_nil v s = err undefined

  -- `new Types::Value()`, with a value stored in it at once.
  unfoldable pub new_value : LuaValue Double → M ℕ
  new_value v s = done s.next (record s { values = put s.next (v, 1) s.values; next = suc s.next })

  unfoldable pub new_table : Table P → M ℕ
  new_table t s = done s.next (record s { tables = put s.next t s.tables; next = suc s.next })

  -- `new Types::Function`, with an empty closure.
  unfoldable pub new_function : List String → Block → M ℕ
  new_function names body s = done s.next (record s {
    code = put s.next (Code.pure names body) s.code;
    closures = put s.next [] s.closures;
    next = suc s.next;
  })

  -- `sGC->add_reference` and `sGC->remove_reference`.
  abbrev pub count_up : LuaValue Double → M (Unit {0})
  count_up v = modify λ s. record s { gc = add_reference P v s.gc }

  abbrev pub count_down : LuaValue Double → M (Unit {0})
  count_down v = attempt (drop_value P (release P) v)

  -- `_local_values.back()[block].find(name)` and `_local_values.back()[block][name] = value`.
  unfoldable pub find_local : Block → String → Environment P → Result (Option ℕ)
  find_local block name s = elim s.local_values [
    | [] ↦ err undefined
    | top ∷ below ↦ let store : ValueStore = at [] block top in ok (find name store)
  ]

  unfoldable pub set_local : Block → String → ℕ → Environment P → Result (Environment P)
  set_local block name a s = elim s.local_values [
    | [] ↦ err undefined
    | top ∷ below ↦
        let store : ValueStore = at [] block top in
        ok (record s { local_values = put block (put name a store) top ∷ below })
  ]

  abbrev pub push_block : Block → M (Unit {0})
  push_block b = modify λ s. record s { blocks = b ∷ s.blocks }

  -- `_blocks.pop_back()`.
  abbrev pub pop_block : M (Unit {0})
  pop_block s = elim s.blocks [
    | [] ↦ thrown (error undefined) s
    | _ ∷ bs ↦ done tt (record s { blocks = bs })
  ]
