-- ===== src/CFunctions/Binding.antt =====
-- What a C++ function gets: one converted argument for each parameter, in order.
use luapp.Prelude.{
  ℕ, List, [], ◌∷◌, ◌++◌, Bool, true, false, Option, some, Result, ok, err, ◌>>=◌, bind_overflow,
  bad_function_call, unbounded_call, ◌≡◌, refl, ◌∙◌, Result-cases, inl, inr,
}
use mathlib.Core.List.{append-nil, append_assoc}
use luapp.Types.Value.{LuaValue}
use luapp.CFunctions.Convert.{Kind, Conversions, Held, perform_conversion, any_cast}
use luapp.CFunctions.Curried.{
  Curried, param, init_function, call, dispatch_call, fresh, build, bind_next, dispatch_bind,
  bind_all, call_c_function,
}

module _ {D A : Type 0} (type_of : A → ℕ) (conversions : Conversions D A) where
  abbrev convert : Kind → LuaValue D → Result (Held A)
  convert k v = perform_conversion type_of conversions k v >>= any_cast type_of conversions k

  -- Each value as the parameter at its place wants it.
  abbrev pub convert_all : List Kind → List (LuaValue D) → Result (List (Held A))
  convert_all [] [] = ok []
  convert_all [] (v ∷ vs) = err bind_overflow
  convert_all (k ∷ ks) [] = err unbounded_call
  convert_all (k ∷ ks) (v ∷ vs) = convert k v >>= λ a. convert_all ks vs >>= λ args. ok (a ∷ args)

  -- The same for a function with parameters; one without them cannot be called.
  abbrev pub arguments : List Kind → List (LuaValue D) → Result (List (Held A))
  arguments [] vs = err bad_function_call
  arguments (k ∷ ks) vs = convert_all (k ∷ ks) vs

  -- The links of the chain bind the values one after another.
  unfoldable bind_chain : List (LuaValue D) → Curried (Held A) → Result (Curried (Held A))
  bind_chain [] c = ok c
  bind_chain (v ∷ vs) c = bind_next type_of conversions v c >>= bind_chain vs

  -- From a link with a parameter on, the dispatch goes to the chain.
  bind_all-chain :
      (vs : List (LuaValue D)) (k : Kind) (bound : Bool) (f : Option (List (Held A)))
      (next : Curried (Held A))
      → (bind_all type_of conversions vs (param k bound f next) >>= dispatch_call)
        ≡ (bind_chain vs (param k bound f next) >>= call)
  unfolding bind_all bind_chain dispatch_bind dispatch_call bind_next
  bind_all-chain [] k bound f next = refl
  bind_all-chain (v ∷ vs) k true f next =
      elim (Result-cases (bind_next type_of conversions v next)) [
        | inl (n, e) ↦ rw e (bind_all-chain vs k true f n)
        | inr (x, e) ↦ rw e
      ]
  bind_all-chain (v ∷ vs) k false f next =
      elim (Result-cases (perform_conversion type_of conversions k v)) [
        | inl (r, e) ↦ elim (Result-cases (any_cast type_of conversions k r)) [
          | inl (a, e') ↦ rw (e, e') (bind_all-chain vs k true f _)
          | inr (x, e') ↦ rw (e, e')
        ]
        | inr (x, e) ↦ rw e
      ]

  -- A link that is bound passes on what comes.
  bind_chain-param :
      (vs : List (LuaValue D)) (k : Kind) (f : Option (List (Held A))) (next : Curried (Held A))
      → (bind_chain vs (param k true f next) >>= call) ≡ (bind_chain vs next >>= call)
  unfolding bind_chain bind_next call
  bind_chain-param [] k f next = refl
  bind_chain-param (v ∷ vs) k f next = elim (Result-cases (bind_next type_of conversions v next)) [
    | inl (n, e) ↦ rw e (bind_chain-param vs k f n)
    | inr (x, e) ↦ rw e
  ]

  bind_chain-fresh :
      (ks : List Kind) (vs : List (LuaValue D)) (args : List (Held A))
      → (bind_chain vs (init_function (some args) (fresh ks)) >>= call)
        ≡ (convert_all ks vs >>= λ rest. ok (args ++ rest))
  unfolding bind_chain bind_next call fresh init_function
  bind_chain-fresh [] [] args = rw append-nil
  bind_chain-fresh [] (v ∷ vs) args = refl
  bind_chain-fresh (k ∷ ks) [] args = refl
  bind_chain-fresh (k ∷ ks) (v ∷ vs) args =
      elim (Result-cases (perform_conversion type_of conversions k v)) [
        | inl (r, e) ↦ elim (Result-cases (any_cast type_of conversions k r)) [
          | inl (a, e') ↦
              rw
                (
                  e,
                  e',
                  bind_chain-param vs k (some args)
                      (init_function (some (args ++ a ∷ [])) (fresh ks)),
                  bind_chain-fresh ks vs (args ++ a ∷ []),
                )
                (elim (Result-cases (convert_all ks vs)) [
                  | inl (rest, q) ↦ rw (q, append_assoc)
                  | inr (x, q) ↦ rw q
                ])
          | inr (x, e') ↦ rw (e, e')
        ]
        | inr (x, e) ↦ rw e
      ]

  -- The call of a C++ function with a list of values. A function with parameters: the values are
  -- converted in order, each for the parameter at its place, and the first error of a conversion is
  -- thrown, bad_any_cast among them where a conversion gives a value of another type; with as many
  -- values as parameters the function gets the results in order; with more, BindOverflow is thrown,
  -- and with fewer, UnboundedCall, once the values that have a parameter are converted. For a
  -- function without parameters bad_function_call is thrown, whatever the values are.
  pub call_c_function_lem :
      (ks : List Kind) (vs : List (LuaValue D))
      → call_c_function type_of conversions ks vs ≡ arguments ks vs
  unfolding call_c_function build bind_all dispatch_bind dispatch_call fresh init_function
  call_c_function_lem [] [] = refl
  call_c_function_lem [] (v ∷ vs) = refl
  call_c_function_lem (k ∷ ks) vs =
      bind_all-chain vs k false (some []) (fresh ks)
      ∙ bind_chain-fresh (k ∷ ks) vs []
      ∙ elim (Result-cases (convert_all (k ∷ ks) vs)) [ inl (args, e) ↦ rw e | inr (x, e) ↦ rw e ]
