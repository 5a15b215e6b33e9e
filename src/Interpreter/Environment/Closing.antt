-- ===== src/Interpreter/Environment/Closing.antt =====
-- interpreter.cpp and types.cpp: the ends of blocks, and the closures of functions.
pub mod Unwinding
pub mod Keeping
pub mod Nesting
pub mod Cascade
pub mod Shadowing
pub mod Releasing
pub mod Erasing
use Prim.Native.String.{◌++◌ as concat}
use luapp.Prelude.{
  ℕ, String, List, [], ◌∷◌, ◌++◌, reverse, Bool, Option, none, some, ◌==◌, eq_nat, eq_string,
  if◌then◌else◌, Result, ok, err, undefined, runtime_error, ◌>>=◌,
}
use luapp.Prelude.Map.{Map, find, put, erase}
use luapp.Analyzer.Scope.{Block}
use luapp.Analyzer.State.{Analyzer, equal_range, at, touch}
use luapp.Types.Platform.{Platform}
use luapp.Interpreter.Environment.{ValueStore, Environment, Code, retain, release}

module _ (P : Platform) where
  unfoldable pub release_all : ValueStore → Environment P → Result (Environment P)
  release_all [] s = ok s
  release_all ((name, a) ∷ store) s = release P a s >>= release_all store

  unfoldable pub clear_block : Block → Environment P → Result (Environment P)
  clear_block ctx s = elim s.local_values [
    | [] ↦ err undefined
    | top ∷ below ↦
        release_all (at [] ctx top) (record s { local_values = touch [] ctx top ∷ below })
  ]

  -- `_local_values.back().erase(context)`.
  unfoldable pub forget_store : Block → Environment P → Result (Environment P)
  forget_store ctx s = elim s.local_values [
    | [] ↦ err undefined
    | top ∷ below ↦ ok (record s { local_values = erase ctx top ∷ below })
  ]

  unfoldable pub erase_block : Block → Environment P → Result (Environment P)
  erase_block ctx s = clear_block ctx s >>= forget_store ctx

  unfoldable pub erase_blocks : List Block → Environment P → Result (Environment P)
  erase_blocks [] s = ok s
  erase_blocks (b ∷ bs) s = erase_block b s >>= erase_blocks bs

  -- The blocks from the back down to `context`, that one included, and those that stay, it included.
  unfoldable pub split_blocks : Block → List Block → Option (List Block × List Block)
  split_blocks context [] = none
  split_blocks context (b ∷ bs) =
      let later = split_blocks context bs in
      if b == context
      then some (b ∷ [], b ∷ bs)
      else elim later [ none ↦ none | some (gone, left) ↦ some (b ∷ gone, left) ]

  -- The loop erases the block itself as well, and goes from it to the back.
  unfoldable pub stabilize_blocks : Block → Environment P → Result (Environment P)
  stabilize_blocks context s = elim s.blocks [
    | [] ↦ err undefined
    | back ∷ bs ↦ if back == context then ok s else elim (split_blocks context (back ∷ bs)) [
      | none ↦ err undefined
      | some (gone, left) ↦ erase_blocks (reverse gone) s >>= λ s₁. ok (record s₁ { blocks = left })
    ]
  ]

  -- `Function::close`.
  unfoldable pub close : ℕ → String → ℕ → Environment P → Result (Environment P)
  close f name a s = elim (find f s.closures) [
    | none ↦ err undefined
    | some names ↦ elim (find name names) [
      | some _ ↦ err (runtime_error (concat "Closing function twice under " name))
      | none ↦ retain P a (record s { closures = put f (put name a names) s.closures })
    ]
  ]

  unfoldable pub close_store : ℕ → ValueStore → Environment P → Result (Environment P)
  close_store f [] s = ok s
  close_store f ((name, a) ∷ store) s = close f name a s >>= close_store f store

  unfoldable pub close_blocks : ℕ → List Block → Environment P → Result (Environment P)
  close_blocks f [] s = ok s
  close_blocks f (ctx ∷ contexts) s = elim s.local_values [
    | [] ↦ err undefined
    | top ∷ below ↦
        close_store f (at [] ctx top) (record s { local_values = touch [] ctx top ∷ below })
        >>= close_blocks f contexts
  ]

  -- The blocks are those of `get_parents_of_function`.
  unfoldable pub close_function : ℕ → Block → Environment P → Result (Environment P)
  close_function f body s = close_blocks f (equal_range body s.listener.functions_parents) s
