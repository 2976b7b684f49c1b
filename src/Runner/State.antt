-- ===== src/Runner/State.antt =====
-- vm/src/vm/runners/cairo_runner.rs and vm/src/types/program.rs: the state of the runner, and the
-- parts of a program that it uses.
use cairo_vm.Base.{ℕ, Bool, true, false, Option, List}
use cairo_vm.Types.Program.{HintsCollection}
use cairo_vm.Types.BuiltinName.{BuiltinName}
use cairo_vm.Types.Felt.{Felt}
use cairo_vm.Types.Value.{Relocatable, MaybeRelocatable}
use cairo_vm.ExecScope.{ExecutionScopes}
use cairo_vm.Vm.State.{VirtualMachine}

pub data RunnerMode : Type 0 where
  execution_mode : RunnerMode
  proof_mode_canonical : RunnerMode
  proof_mode_cairo1 : RunnerMode

-- The fields of `Program` and `SharedProgramData` that a run uses.
pub record Program (Hint : Type 0) : Type 0 where
  pub builtins : List BuiltinName
  pub data_words : List MaybeRelocatable
  pub hints_collection : HintsCollection Hint
  pub start : Option ℕ
  pub end : Option ℕ

-- `RelocatedTraceEntry`
pub record RelocatedTraceEntry : Type 0 where
  pub pc : ℕ
  pub ap : ℕ
  pub fp : ℕ

-- `CairoRunner`, without the layout.
pub record CairoRunner (Hint V : Type 0) : Type 0 where
  pub vm : VirtualMachine
  pub program : Program Hint
  pub final_pc : Option Relocatable
  pub program_base : Option Relocatable
  pub execution_base : Option Relocatable
  pub entrypoint : Option ℕ
  pub initial_ap : Option Relocatable
  pub initial_fp : Option Relocatable
  pub initial_pc : Option Relocatable
  pub run_ended : Bool
  pub segments_finalized : Bool
  pub execution_public_memory : Option (List ℕ)
  pub runner_mode : RunnerMode
  pub relocated_memory : List (Option Felt)
  pub exec_scopes : ExecutionScopes V
  pub relocated_trace : Option (List RelocatedTraceEntry)

unfoldable pub is_proof_mode : RunnerMode → Bool
is_proof_mode execution_mode = false
is_proof_mode proof_mode_canonical = true
is_proof_mode proof_mode_cairo1 = true
