-- ===== src/CFunctions/Curried.antt =====
-- function_abstraction.h: a C++ function whose arguments are bound one by one.
use luapp.Prelude.{
  ℕ, List, [], ◌∷◌, ◌++◌, Bool, true, false, Option, none, some, Result, ok, err, ◌>>=◌,
  bind_overflow, unbounded_call, bad_function_call,
}
use luapp.Types.Value.{LuaValue}
use luapp.CFunctions.Convert.{Kind, Conversions, Held, perform_conversion, any_cast}

-- The chain of `CurriedFunction`, from the first parameter on. `_function` is the C++ function with
-- the arguments that `std::bind_front` has put before the others, and so their list; an empty
-- `std::function` is `none`.
pub data Curried (A : Type 0) : Type 0 where
  done : Option (List A) → Curried A
  param : Kind → Bool → Option (List A) → Curried A → Curried A

module _ {A : Type 0} where
  unfoldable pub init_function : Option (List A) → Curried A → Curried A
  init_function f (done _) = done f
  init_function f (param k bound _ next) = param k bound f next

  abbrev pub bind_front : Option (List A) → A → Option (List A)
  bind_front none a = none
  bind_front (some args) a = some (args ++ a ∷ [])

  unfoldable pub call : Curried A → Result (List A)
  call (done none) = err bad_function_call
  call (done (some args)) = ok args
  call (param k false f next) = err unbounded_call
  call (param k true f next) = call next

  -- `CurriedFunctionBuilder::build`: nothing is bound, and the function stands in the first link.
  unfoldable pub fresh : List Kind → Curried A
  fresh [] = done none
  fresh (k ∷ ks) = param k false none (fresh ks)

  unfoldable pub build : List Kind → Curried A
  build ks = init_function (some []) (fresh ks)

  -- `FunctionAbstraction::call`, through `_call_fn`, which a function without parameters never sets.
  unfoldable pub dispatch_call : Curried A → Result (List A)
  dispatch_call (done f) = err bad_function_call
  dispatch_call (param k bound f next) = call (param k bound f next)

module _ {D A : Type 0} (type_of : A → ℕ) (conversions : Conversions D A) where
  unfoldable pub bind_next : LuaValue D → Curried (Held A) → Result (Curried (Held A))
  bind_next v (done f) = err bind_overflow
  bind_next v (param k true f next) = do next' ← bind_next v next; ok (param k true f next')
  bind_next v (param k false f next) = do
    result ← perform_conversion type_of conversions k v
    a ← any_cast type_of conversions k result
    ok (param k true f (init_function (bind_front f a) next))

  -- `FunctionAbstraction::bind_next`, through `_bind_next_fn`.
  unfoldable pub dispatch_bind : LuaValue D → Curried (Held A) → Result (Curried (Held A))
  dispatch_bind v (done f) = err bad_function_call
  dispatch_bind v (param k bound f next) = bind_next v (param k bound f next)

  unfoldable pub bind_all : List (LuaValue D) → Curried (Held A) → Result (Curried (Held A))
  bind_all [] c = ok c
  bind_all (v ∷ vs) c = dispatch_bind v c >>= bind_all vs

  -- `call_c_function` of interpreter.cpp, up to the C++ function itself: the arguments it is called
  -- with.
  unfoldable pub call_c_function : List Kind → List (LuaValue D) → Result (List (Held A))
  call_c_function ks vs = bind_all vs (build ks) >>= dispatch_call
