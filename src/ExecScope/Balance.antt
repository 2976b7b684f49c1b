-- ===== src/ExecScope/Balance.antt =====
-- vm/src/types/exec_scope.rs: a scope that is entered and left again leaves the scopes around it
-- as they were, and a variable that is assigned is found.
use text.Mathlib.Text.{◌==◌}
use text.Mathlib.TextEquality.{eq_iff}
use Prim.Native.String.{String}
use cairo_vm.Base.{
  ◌≡◌, refl, inl, inr, ◌∙◌, Bool, true, false, Option, some, List, [], ◌∷◌, ◌++◌, arith,
  if◌then◌else◌,
}
use cairo_vm.Base.Result.{Result, ok, ◌>>=◌, Result-cases, ok_or, and_then}
use cairo_vm.Types.Errors.{ExecScopeError, HintError}
use cairo_vm.ExecScope.{
  ExecutionScopes, stack, lookup, insert, enter_scope, exit_scope, delete_variable,
  assign_or_update_variable, get,
}

-- What hints do to the scopes.
pub data Action {ℓ} (V : Type ℓ) : Type ℓ where
  enter : List (String × V) → Action V
  exit : Action V
  assign : String → V → Action V
  delete : String → Action V

-- Each scope that is entered is left again, after balanced actions.
pub data IsBalanced {ℓ} {V : Type ℓ} : List (Action V) → Type ℓ where
  done : IsBalanced []
  assigns :
      {actions : List (Action V)} (name : String) (v : V)
      → IsBalanced actions
      → IsBalanced (assign name v ∷ actions)
  deletes :
      {actions : List (Action V)} (name : String)
      → IsBalanced actions
      → IsBalanced (delete name ∷ actions)
  nests :
      {inner actions : List (Action V)} (locals : List (String × V))
      → IsBalanced inner
      → IsBalanced actions
      → IsBalanced (enter locals ∷ inner ++ exit ∷ actions)

module _ {ℓ} {V : Type ℓ} where
  unfoldable pub act : Action V → ExecutionScopes V → Result ExecScopeError (ExecutionScopes V)
  act (enter locals) s = ok (enter_scope s locals)
  act exit s = exit_scope s
  act (assign name v) s = ok (assign_or_update_variable s name v)
  act (delete name) s = ok (delete_variable s name)

  unfoldable pub act_all :
      List (Action V) → ExecutionScopes V → Result ExecScopeError (ExecutionScopes V)
  act_all [] s = ok s
  act_all (a ∷ actions) s = act a s >>= act_all actions

  act_all-append :
      (first second : List (Action V)) (s : ExecutionScopes V)
      → act_all (first ++ second) s ≡ (act_all first s >>= act_all second)
  unfolding act_all
  act_all-append [] second s = refl
  act_all-append (a ∷ first) second s = elim (Result-cases (act a s)) [
    | inl o ↦ rw o.1 (act_all-append first second o.0)
    | inr o ↦ rw o.1 refl
  ]

  -- Actions on the scopes in which each scope that is entered is left again never fail, from any
  -- scope that is innermost, and change that scope alone: the scopes around it are as they were.
  pub act_all-IsBalanced :
      {actions : List (Action V)}
      → IsBalanced actions
      → (locals : List (String × V)) (outer : List (List (String × V)))
      → (locals' : List (String × V)) × (act_all actions (stack (locals ∷ outer))
          ≡ ok (stack (locals' ∷ outer)))
  unfolding act_all act enter_scope exit_scope delete_variable assign_or_update_variable
  act_all-IsBalanced done locals outer = (locals, refl)
  act_all-IsBalanced (assigns name v b) locals outer = act_all-IsBalanced b _ outer
  act_all-IsBalanced (deletes name b) locals outer = act_all-IsBalanced b _ outer
  act_all-IsBalanced (nests {inner} {actions} new b c) locals outer =
      let first = act_all-IsBalanced b new (locals ∷ outer) in
      let second = act_all-IsBalanced c locals outer in
      (
        second.0,
        act_all-append inner (exit ∷ actions) (stack (new ∷ locals ∷ outer))
            ∙ rw (first.1) second.1,
      )

  lookup-insert :
      (m : List (String × V)) (k j : String) (v : V)
      → lookup (insert m k v) j ≡ (if k == j then some v else lookup m j)
  unfolding lookup insert
  lookup-insert [] k j v = refl
  lookup-insert ((i, w) ∷ m) k j v =
      ground (arith, eq_iff k j, eq_iff i k, eq_iff i j, lookup-insert m k j v)

  chosen {κ} :
      {T : Type κ} (b : Bool) (v : V) (found : Option V) (d : V → Option T) (e : HintError)
      → Path
          (Result HintError T)
          (ok_or (and_then (if b then some v else found) d) e)
          (if b then ok_or (d v) e else ok_or (and_then found d) e)
  chosen true v found d e = refl
  chosen false v found d e = refl

  -- After an assignment a variable of that name reads as the value, if it has the type that is
  -- asked for, and every other name reads as before.
  pub get-assign_or_update_variable {κ} :
      {T : Type κ} (downcast_ref : V → Option T) (locals : List (String × V))
      (outer : List (List (String × V))) (name other : String) (v : V)
      → get downcast_ref (assign_or_update_variable (stack (locals ∷ outer)) name v) other ≡ (
          if name == other
          then ok_or (downcast_ref v) (HintError.variable_not_in_scope_error other)
          else get downcast_ref (stack (locals ∷ outer)) other)
  unfolding get assign_or_update_variable
  get-assign_or_update_variable d locals outer name other v =
      rw (lookup-insert locals name other v) (chosen (name == other) v (lookup locals other) d _)
