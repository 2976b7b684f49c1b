-- ===== src/ExecScope.antt =====
-- vm/src/types/exec_scope.rs: the stack of scopes in which hints keep their variables.
pub mod Balance
use text.Mathlib.Text.{◌==◌}
use text.Mathlib.TextEquality.{eq_iff}
use Prim.Native.String.{String}
use cairo_vm.Base.{
  ◌≡◌, refl, Bool, true, false, Option, none, some, List, [], ◌∷◌, arith, if◌then◌else◌,
}
use cairo_vm.Base.Result.{Result, ok, err, ◌>>=◌, map_err, ok_or, to_option, and_then}
use cairo_vm.Types.Errors.{ExecScopeError, HintError}

-- `HashMap<String, _>` as an association list: an insertion replaces.
module _ {ℓ} {V : Type ℓ} where
  unfoldable pub lookup : List (String × V) → String → Option V
  lookup [] k = none
  lookup ((j, v) ∷ m) k = if j == k then some v else lookup m k

  unfoldable pub insert : List (String × V) → String → V → List (String × V)
  insert [] k v = (k, v) ∷ []
  insert ((j, w) ∷ m) k v = if j == k then (k, v) ∷ m else (j, w) ∷ insert m k v

  unfoldable pub remove : List (String × V) → String → List (String × V)
  remove [] k = []
  remove ((j, w) ∷ m) k = if j == k then remove m k else (j, w) ∷ remove m k

-- A value `Box<dyn Any>` is of a type `V`, the type of whatever hosts store. `downcast_ref` to a
-- type T is a partial function from V. The innermost scope comes first, where the vector of the
-- source has it last.
pub record ExecutionScopes {ℓ} (V : Type ℓ) : Type ℓ where
  pub scopes : List (List (String × V))

abbrev pub stack {ℓ} : {V : Type ℓ} → List (List (String × V)) → ExecutionScopes V
stack scopes = record { scopes = scopes }

module _ {ℓ} {V : Type ℓ} where
  -- `ExecutionScopes::new`
  unfoldable pub new_scopes : ExecutionScopes V
  new_scopes = stack ([] ∷ [])

  unfoldable pub enter_scope : ExecutionScopes V → List (String × V) → ExecutionScopes V
  enter_scope s new_scope_locals = stack (new_scope_locals ∷ s.scopes)

  -- With no scope at all there is nothing to pop.
  popped : List (List (String × V)) → Result ExecScopeError (ExecutionScopes V)
  popped [] = ok (stack [])
  popped (_ ∷ []) = err ExecScopeError.exit_main_scope_error
  popped (_ ∷ outer ∷ rest) = ok (stack (outer ∷ rest))

  unfoldable pub exit_scope : ExecutionScopes V → Result ExecScopeError (ExecutionScopes V)
  unfolding popped
  exit_scope s = popped s.scopes

  innermost : List (List (String × V)) → Result HintError (List (String × V))
  innermost [] = err (HintError.from_scope_error ExecScopeError.no_scope_error)
  innermost (locals ∷ outer) = ok locals

  unfoldable pub get_local_variables : ExecutionScopes V → Result HintError (List (String × V))
  unfolding innermost
  get_local_variables s = innermost s.scopes

  -- The two mutations of `get_local_variables_mut`; without a scope they change nothing.
  on_innermost :
      (List (String × V) → List (String × V)) → List (List (String × V)) → List (List (String × V))
  on_innermost f [] = []
  on_innermost f (locals ∷ outer) = f locals ∷ outer

  unfoldable pub delete_variable : ExecutionScopes V → String → ExecutionScopes V
  unfolding on_innermost
  delete_variable s name = stack (on_innermost (λ locals. remove locals name) s.scopes)

  unfoldable pub assign_or_update_variable : ExecutionScopes V → String → V → ExecutionScopes V
  unfolding on_innermost
  assign_or_update_variable s name v =
      stack (on_innermost (λ locals. insert locals name v) s.scopes)

  unfoldable pub insert_box : ExecutionScopes V → String → V → ExecutionScopes V
  unfolding assign_or_update_variable
  insert_box = assign_or_update_variable

  -- `any_box!` stores a value of a type T.
  unfoldable pub insert_value {κ} :
      {T : Type κ} → (any_box : T → V) → ExecutionScopes V → String → T → ExecutionScopes V
  unfolding assign_or_update_variable
  insert_value any_box s name v = assign_or_update_variable s name (any_box v)

  unfoldable pub get {κ} :
      {T : Type κ} → (downcast_ref : V → Option T) → ExecutionScopes V → String → Result HintError T
  unfolding get_local_variables lookup
  get downcast_ref s name = do
    locals ← get_local_variables s
    ok_or (and_then (lookup locals name) downcast_ref) (HintError.variable_not_in_scope_error name)

  -- A reference reads the value that is there.
  pub get_ref {κ} :
      {T : Type κ} → (downcast_ref : V → Option T) → ExecutionScopes V → String → Result HintError T
  get_ref = get

  pub get_list {κ} :
      {T : Type κ}
      → (downcast_ref : V → Option (List T)) → ExecutionScopes V
      → String
      → Result HintError (List T)
  get_list = get

  pub get_list_ref {κ} :
      {T : Type κ}
      → (downcast_ref : V → Option (List T)) → ExecutionScopes V
      → String
      → Result HintError (List T)
  get_list_ref = get

  unfoldable pub get_any_boxed_ref : ExecutionScopes V → String → Result HintError V
  unfolding get_local_variables lookup
  get_any_boxed_ref s name = do
    locals ← get_local_variables s
    ok_or (lookup locals name) (HintError.variable_not_in_scope_error name)

  unfoldable pub get_dict_manager {κ} :
      {T : Type κ} → (downcast_ref : V → Option T) → ExecutionScopes V → Result HintError T
  unfolding get
  get_dict_manager downcast_ref s = get downcast_ref s "dict_manager"
