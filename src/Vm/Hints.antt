-- ===== src/Vm/Hints.antt =====
-- vm/src/vm/vm_core.rs: a step with the hints that run before its instruction, without the feature
-- `extensive_hints`. A hint processor is any code of the host: `HintProcessor` holds what the
-- machine calls of it.
pub mod Metered
use cairo_vm.Base.{ℕ, zero, suc, Bool, Option, List, [], ◌∷◌}
use cairo_vm.Base.Result.{Result, ok, err, ◌>>=◌, map_err}
use cairo_vm.Types.Felt.{FeltOps}
use cairo_vm.Types.Errors.{HintError, VirtualMachineError}
use cairo_vm.Builtins.Runner.{HashOps}
use cairo_vm.ExecScope.{ExecutionScopes}
use cairo_vm.Vm.State.{VirtualMachine}
use cairo_vm.Vm.Step.{step_instruction}

-- What a run changes: the machine, the scopes and the state of the processor.
pub record Running (Processor V : Type 0) : Type 0 where
  pub vm : VirtualMachine
  pub exec_scopes : ExecutionScopes V
  pub processor : Processor

-- The traits `HintProcessorLogic` and `ResourceTracker`. `execute_hint` is given the constants of
-- the program when it is made.
pub record HintProcessor : Type 1 where
  pub Processor : Type 0
  pub Value : Type 0
  pub Hint : Type 0
  pub HintData : Type 0
  pub compile_hint : Processor → Hint → Option HintData
  pub execute_hint : HintData → Running Processor Value → Result HintError (Running Processor Value)
  pub consumed : Processor → Bool
  pub consume_step : Processor → Processor

module _ ⦃F : FeltOps⦄ ⦃H : HashOps⦄ (P : HintProcessor) where
  abbrev pub State : Type 0
  State = Running P.Processor P.Value

  unfoldable pub hints_from : ℕ → List P.HintData → State → Result VirtualMachineError State
  hints_from index [] s = ok s
  hints_from index (h ∷ hs) s =
      map_err (VirtualMachineError.hint index) (P.execute_hint h s) >>= hints_from (suc index) hs

  unfoldable pub step_hint : List P.HintData → State → Result VirtualMachineError State
  unfolding hints_from
  step_hint hint_datas s = hints_from 0 hint_datas s

  unfoldable pub step : List P.HintData → State → Result VirtualMachineError State
  unfolding step_hint
  step hint_datas s = do
    s' ← step_hint hint_datas s
    vm ← step_instruction s'.vm
    ok (record s' { vm = vm })
