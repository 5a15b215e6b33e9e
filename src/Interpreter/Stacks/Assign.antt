-- ===== src/Interpreter/Stacks/Assign.antt =====
-- interpreter.cpp: assignments keep the stacks.
use luapp.Prelude.{List, String, [], ◌∷◌, none, some, Bool, false, drop, length, ltb, back?}
use luapp.Analyzer.Scope.{Block}
use luapp.Types.Platform.{Platform}
use luapp.Types.Value.{LuaValue, nil}
use luapp.Types.Var.{Var, rvalue, lvalue, list, var_error}
use luapp.Types.Var
use luapp.Interpreter.Environment.{current_block}
use luapp.Interpreter.Machine.{M, map_all, heap, give, ◌>>=◌}
use luapp.Interpreter.Assign.{
  expansion, local_object, assign_locals, expand_locals, nil_locals, adjust_locals,
  process_local_variables, morph_lvalue, assign_vars, place_of, expand_vars, nil_vars, adjust_vars,
  process_stat_var_list,
}
use luapp.Interpreter.Stacks.{
  Base, Keeps, >>=-Keeps, >>-Keeps, if-Keeps, option-Keeps, map_all-Keeps, later,
}
use luapp.Interpreter.Stacks.Actions.{
  give-Keeps, fail-Keeps, read-Keeps, gets-Keeps, view-Keeps, new_value-Keeps, count_up-Keeps,
  count_down-Keeps, set_local-Keeps, find_local-Keeps, write-Keeps,
}

module _ {P : Platform} {base : Base} where
  open P use {Double}

  expansion-Keeps : (xs : List (Var Double)) → Keeps base (expansion P xs)
  unfolding expansion
  expansion-Keeps xs =
      option-Keeps (back? xs) (give-Keeps _) λ last. search (>>=-Keeps, read-Keeps, give-Keeps)

  local_object-Keeps : (b : Block) (name : String) → Keeps base (local_object P b name)
  unfolding local_object
  local_object-Keeps b name = >>=-Keeps (find_local-Keeps b name) λ found.
      option-Keeps found
        (search (>>=-Keeps, >>-Keeps, new_value-Keeps, set_local-Keeps, give-Keeps)) give-Keeps

  assign_locals-Keeps :
      (b : Block) (names : List String) (xs : List (Var Double))
      → Keeps base (assign_locals P b names xs)
  unfolding assign_locals
  assign_locals-Keeps b (name ∷ names) (x ∷ xs) =
      search
        (
          >>=-Keeps,
          >>-Keeps,
          local_object-Keeps,
          read-Keeps,
          write-Keeps,
          count_up-Keeps,
          later (assign_locals-Keeps b names xs),
        )
        depth 12
  assign_locals-Keeps b [] xs = give-Keeps tt
  assign_locals-Keeps b (name ∷ names) [] = give-Keeps tt

  expand_locals-Keeps :
      (b : Block) (over : Bool) (names : List String) (vs : List (LuaValue Double))
      → Keeps base (expand_locals P b over names vs)
  unfolding expand_locals
  expand_locals-Keeps b over (name ∷ names) (v ∷ vs) =
      search
        (
          >>=-Keeps,
          >>-Keeps,
          if-Keeps,
          local_object-Keeps,
          read-Keeps,
          write-Keeps,
          count_up-Keeps,
          count_down-Keeps,
          give-Keeps,
          later (expand_locals-Keeps b false names vs),
        )
        depth 12
  expand_locals-Keeps b over [] vs = give-Keeps []
  expand_locals-Keeps b over (name ∷ names) [] = give-Keeps (name ∷ names)

  nil_locals-Keeps : (b : Block) (names : List String) → Keeps base (nil_locals P b names)
  unfolding nil_locals
  nil_locals-Keeps b [] = give-Keeps tt
  nil_locals-Keeps b (name ∷ names) =
      search
        (>>=-Keeps, >>-Keeps, new_value-Keeps, set_local-Keeps, later (nil_locals-Keeps b names))
        depth 12

  adjusted :
      (b : Block) (left names : List String) (xs : List (Var Double))
      → Keeps {P = P} base (elim left [
        | [] ↦ give tt
        | _ ∷ _ ↦ expansion P xs >>= λ x.
            expand_locals P b (ltb x.0 (length xs)) (drop x.0 names) x.1 >>= nil_locals P b
      ])
  adjusted b [] names xs = give-Keeps tt
  adjusted b (l ∷ left) names xs =
      >>=-Keeps (expansion-Keeps xs)
        λ x. >>=-Keeps (expand_locals-Keeps b _ _ x.1) (nil_locals-Keeps b)

  adjust_locals-Keeps :
      (b : Block) (names : List String) (xs : List (Var Double))
      → Keeps base (adjust_locals P b names xs)
  unfolding adjust_locals
  adjust_locals-Keeps b names xs = adjusted b (drop (length xs) names) names xs

  assigned :
      (names : List String) {run : M P (List (Var Double))}
      → Keeps base run
      → Keeps base (process_local_variables P names (some run))
  unfolding process_local_variables
  assigned names g = >>=-Keeps g λ xs.
      >>=-Keeps (gets-Keeps (current_block P))
        λ block. >>-Keeps (assign_locals-Keeps block names xs) (adjust_locals-Keeps block names xs)

  -- Without an expression list, and with one.
  pub process_local_variables-Keeps :
      (names : List String) {run : M P (List (Var Double))}
      → Keeps base run
      → Keeps base (process_local_variables P names none)
        × Keeps base (process_local_variables P names (some run))
  unfolding process_local_variables
  process_local_variables-Keeps names g = (
    assigned names {run = map_all (λ _. give (rvalue nil)) names}
        (map_all-Keeps (λ _. give-Keeps (rvalue nil)) names),
    assigned names g,
  )

  morph_lvalue-Keeps : (x : Var Double) → Keeps base (morph_lvalue P x)
  unfolding morph_lvalue
  morph_lvalue-Keeps (lvalue p) = view-Keeps λ s. Var.morph (heap P s) (lvalue p)
  morph_lvalue-Keeps (rvalue v) = give-Keeps _
  morph_lvalue-Keeps (list vs) = give-Keeps _
  morph_lvalue-Keeps var_error = give-Keeps _

  assign_vars-Keeps : (xs es : List (Var Double)) → Keeps base (assign_vars P xs es)
  unfolding assign_vars
  assign_vars-Keeps [] es = give-Keeps tt
  assign_vars-Keeps (lvalue p ∷ xs) (e ∷ es) =
      search
        (
          >>=-Keeps,
          >>-Keeps,
          read-Keeps,
          count_down-Keeps,
          write-Keeps,
          count_up-Keeps,
          later (assign_vars-Keeps xs es),
        )
        depth 12
  assign_vars-Keeps (lvalue p ∷ xs) [] = give-Keeps tt
  assign_vars-Keeps (rvalue v ∷ xs) [] = give-Keeps tt
  assign_vars-Keeps (list vs ∷ xs) [] = give-Keeps tt
  assign_vars-Keeps (var_error ∷ xs) [] = give-Keeps tt
  assign_vars-Keeps (rvalue v ∷ xs) (e ∷ es) = fail-Keeps _
  assign_vars-Keeps (list vs ∷ xs) (e ∷ es) = fail-Keeps _
  assign_vars-Keeps (var_error ∷ xs) (e ∷ es) = fail-Keeps _

  place_of-Keeps : (x : Var Double) → Keeps base (place_of P x)
  place_of-Keeps (lvalue p) = give-Keeps p
  place_of-Keeps (rvalue v) = fail-Keeps _
  place_of-Keeps (list vs) = fail-Keeps _
  place_of-Keeps var_error = fail-Keeps _

  expand_vars-Keeps :
      (over : Bool) (xs : List (Var Double)) (vs : List (LuaValue Double))
      → Keeps base (expand_vars P over xs vs)
  unfolding expand_vars
  expand_vars-Keeps over [] vs = give-Keeps []
  expand_vars-Keeps over (x ∷ xs) [] = give-Keeps (x ∷ xs)
  expand_vars-Keeps over (x ∷ xs) (v ∷ vs) =
      search
        (
          >>=-Keeps,
          >>-Keeps,
          if-Keeps,
          place_of-Keeps,
          read-Keeps,
          write-Keeps,
          count_up-Keeps,
          count_down-Keeps,
          give-Keeps,
          later (expand_vars-Keeps false xs vs),
        )
        depth 12

  nil_vars-Keeps : (xs : List (Var Double)) → Keeps base (nil_vars P xs)
  unfolding nil_vars
  nil_vars-Keeps [] = give-Keeps tt
  nil_vars-Keeps (x ∷ xs) =
      search (>>=-Keeps, >>-Keeps, place_of-Keeps, write-Keeps, later (nil_vars-Keeps xs)) depth 12

  adjust_vars-Keeps : (xs es : List (Var Double)) → Keeps base (adjust_vars P xs es)
  unfolding adjust_vars
  adjust_vars-Keeps xs es = left_over (drop (length es) xs)
    where
      left_over :
          (left : List (Var Double))
          → Keeps {P = P} base (elim left [
            | [] ↦ give tt
            | _ ∷ _ ↦ expansion P es >>= λ x.
                expand_vars P (ltb x.0 (length es)) (drop x.0 xs) x.1 >>= nil_vars P
          ])
      left_over [] = give-Keeps tt
      left_over (l ∷ left) =
          >>=-Keeps (expansion-Keeps es) λ x. >>=-Keeps (expand_vars-Keeps _ _ x.1) nil_vars-Keeps

  pub process_stat_var_list-Keeps :
      {l r : M P (List (Var Double))}
      → Keeps base l
      → Keeps base r
      → Keeps base (process_stat_var_list P l r)
  unfolding process_stat_var_list
  process_stat_var_list-Keeps g h =
      search (>>=-Keeps, map_all-Keeps, morph_lvalue-Keeps, assign_vars-Keeps, adjust_vars-Keeps)
        depth 12
