-- ===== src/Tests/Scopes.antt =====
-- Scopes of a hint that enters a scope, uses variables of its own, and leaves.
use text.Mathlib.Text.{◌==◌}
use Prim.Native.String.{String}
use cairo_vm.Base.{ℕ, ◌≡◌, refl, some, List, [], ◌∷◌, if◌then◌else◌}
use cairo_vm.Base.Result.{ok, err, ok_or}
use cairo_vm.ExecScope.{stack, new_scopes, exit_scope, assign_or_update_variable, get}
use cairo_vm.ExecScope.Balance.{
  Action, enter, exit, assign, delete, IsBalanced, done, assigns, deletes, nests, act_all,
  act_all-IsBalanced, get-assign_or_update_variable,
}
use cairo_vm.Types.Errors.{ExecScopeError, HintError}

main_scope_stays : exit_scope (new_scopes {V = ℕ}) ≡ err ExecScopeError.exit_main_scope_error
unfolding exit_scope new_scopes
main_scope_stays = refl

abbrev loop_actions : List (Action ℕ)
loop_actions = enter (("n", 3) ∷ []) ∷ assign "n" 2 ∷ delete "n" ∷ exit ∷ assign "found" 1 ∷ []

loop_actions-IsBalanced : IsBalanced loop_actions
loop_actions-IsBalanced =
    nests (("n", 3) ∷ []) (assigns "n" 2 (deletes "n" done)) (assigns "found" 1 done)

act_all-IsBalanced_example :
    (locals' : List (String × ℕ)) × (act_all loop_actions (stack ((("a", 7) ∷ []) ∷ []))
      ≡ ok (stack (locals' ∷ [])))
act_all-IsBalanced_example = act_all-IsBalanced loop_actions-IsBalanced (("a", 7) ∷ []) []

get-assign_or_update_variable_example :
    get {V = ℕ} {T = ℕ} some (assign_or_update_variable (stack ((("a", 7) ∷ []) ∷ [])) "b" 5) "b"
    ≡ (if "b" == "b"
        then ok_or (some 5) (HintError.variable_not_in_scope_error "b")
        else get {V = ℕ} {T = ℕ} some (stack ((("a", 7) ∷ []) ∷ [])) "b")
get-assign_or_update_variable_example =
    get-assign_or_update_variable some (("a", 7) ∷ []) [] "b" "b" 5
