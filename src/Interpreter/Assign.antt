-- ===== src/Interpreter/Assign.antt =====
-- interpreter.cpp: `process_local_variables` and `process_stat_var_list`, on the names or variables of
-- the left side and the values of the right side.
use luapp.Prelude.{
  ℕ, ◌-◌, String, List, [], ◌∷◌, Bool, false, Option, none, some, length, drop, back?, ltb,
  if◌then◌else◌, runtime_error, bad_variant_access,
}
use luapp.Analyzer.Scope.{Block}
use luapp.Types.Platform.{Platform}
use luapp.Types.Value.{LuaValue, nil, elipsis, values}
use luapp.Types.Var.{Var, rvalue, lvalue, list, var_error, Place, object}
use luapp.Types.Var
use luapp.Interpreter.Environment.{current_block}
use luapp.Interpreter.Machine.{
  done, ◌>>=◌, ◌>>◌, give, fail, lift, gets, attempt, map_all, M, heap, read, write, new_value,
  find_local, set_local, count_up, count_down,
}

module _ (P : Platform) where
  open P use {Double}

  -- What the last expression has beyond its own place: an elipsis is spread from that place on, the
  -- other values of a list from the next one on. The number is the place to go on from.
  unfoldable pub spread : ℕ → Var Double → LuaValue Double → ℕ × List (LuaValue Double)
  spread size last (elipsis vs) = (size - 1, values vs)
  spread size (list (_ ∷ vs)) v = (size, vs)
  spread size _ v = (size, [])

  unfoldable pub expansion : List (Var Double) → M P (ℕ × List (LuaValue Double))
  expansion vars = elim (back? vars) [
    | none ↦ give (0, [])
    | some last ↦ read P last >>= λ v. give (spread (length vars) last v)
  ]

  -- The local's object, which is made where there is none.
  unfoldable pub local_object : Block → String → M P ℕ
  local_object block name = do
    found ← (λ s. lift (find_local P block name s) s)
    elim found [
      | some a ↦ give a
      | none ↦ (do a ← new_value P nil; attempt (set_local P block name a); give a)
    ]

  unfoldable pub assign_locals : Block → List String → List (Var Double) → M P (Unit {0})
  assign_locals block (name ∷ names) (x ∷ xs) = do
    a ← local_object block name
    v ← read P x
    attempt (write P (object a) v)
    count_up P v
    assign_locals block names xs
  assign_locals block _ _ = give tt

  -- `over` tells that the first of the names holds the elipsis itself. The names that are left.
  unfoldable pub expand_locals :
      Block → Bool → List String → List (LuaValue Double) → M P (List String)
  expand_locals block over (name ∷ names) (v ∷ vs) = do
    a ← local_object block name
    if over then (read P (lvalue (object a)) >>= count_down P) else give tt
    count_up P v
    attempt (write P (object a) v)
    expand_locals block false names vs
  expand_locals block over names _ = give names

  unfoldable pub nil_locals : Block → List String → M P (Unit {0})
  nil_locals block [] = give tt
  nil_locals block (name ∷ names) = do
    a ← new_value P nil
    attempt (set_local P block name a)
    nil_locals block names

  unfoldable pub adjust_locals : Block → List String → List (Var Double) → M P (Unit {0})
  adjust_locals block names xs = elim (drop (length xs) names) [
    | [] ↦ give tt
    | _ ∷ _ ↦ (do
      (i, remains) ← expansion xs
      left ← expand_locals block (ltb i (length xs)) (drop i names) remains
      nil_locals block left)
  ]

  -- The expression list is missing in `local x`.
  unfoldable pub process_local_variables :
      List String → Option (M P (List (Var Double))) → M P (Unit {0})
  process_local_variables names el = do
    xs ← elim el [ none ↦ map_all (λ _. give (rvalue nil)) names | some visit ↦ visit ]
    block ← gets (current_block P)
    assign_locals block names xs
    adjust_locals block names xs

  unfoldable pub morph_lvalue : Var Double → M P (Var Double)
  morph_lvalue (lvalue p) s = lift (Var.morph (heap P s) (lvalue p)) s
  morph_lvalue x s = done x s

  unfoldable pub assign_vars : List (Var Double) → List (Var Double) → M P (Unit {0})
  assign_vars (lvalue p ∷ xs) (e ∷ es) = do
    old ← read P (lvalue p)
    count_down P old
    v ← read P e
    attempt (write P p v)
    count_up P v
    assign_vars xs es
  assign_vars (_ ∷ xs) (e ∷ es) = fail (runtime_error "How the hell did you arrive here ?")
  assign_vars _ _ = give tt

  -- `_lvalue()`.
  abbrev pub place_of : Var Double → M P (Place Double)
  place_of (lvalue p) = give p
  place_of _ = fail bad_variant_access

  unfoldable pub expand_vars :
      Bool → List (Var Double) → List (LuaValue Double) → M P (List (Var Double))
  expand_vars over (x ∷ xs) (v ∷ vs) = do
    p ← place_of x
    if over then give tt else (read P (lvalue p) >>= count_down P)
    attempt (write P p v)
    count_up P v
    expand_vars false xs vs
  expand_vars over xs _ = give xs

  unfoldable pub nil_vars : List (Var Double) → M P (Unit {0})
  nil_vars [] = give tt
  nil_vars (x ∷ xs) = do p ← place_of x; attempt (write P p nil); nil_vars xs

  unfoldable pub adjust_vars : List (Var Double) → List (Var Double) → M P (Unit {0})
  adjust_vars xs es = elim (drop (length es) xs) [
    | [] ↦ give tt
    | _ ∷ _ ↦ (do
      (i, remains) ← expansion es
      left ← expand_vars (ltb i (length es)) (drop i xs) remains
      nil_vars left)
  ]

  unfoldable pub process_stat_var_list :
      M P (List (Var Double)) → M P (List (Var Double)) → M P (Unit {0})
  process_stat_var_list visit_varlist visit_explist = do
    xs ← visit_varlist
    exprs ← visit_explist
    es ← map_all morph_lvalue exprs
    assign_vars xs es
    adjust_vars xs es
