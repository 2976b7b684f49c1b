-- ===== src/Runner/Run.antt =====
-- vm/src/vm/runners/cairo_runner.rs: running until an address, or for a number of steps. The loop of
-- `run_until_pc` has no bound but the resources of the processor: `rounds` bounds it here, and
-- `none` says that the bound was reached.
pub mod Ends
pub mod Keeps
use cairo_vm.Base.{
  ℕ, zero, suc, ◌+◌, ◌-◌, ◌≤◌, ◌<◌, ◌≡◌, refl, sym, ap, ◌∙◌, ◌⊎◌, inl, inr, Bool, true, false, ◌||◌,
  not, Option, none, some, List, [], ◌∷◌, arith, leb, if◌then◌else◌, length, get_elem?, Bool-cases,
}
use cairo_vm.Base.Result.{
  Result, ok, err, ◌>>=◌, map_err, and_then, bind-ok-elim, map_err-eq-ok, Result-cases,
  ok-injective,
}
use cairo_vm.Types.Program.{slice_for_pc}
use cairo_vm.Types.Felt.{FeltOps}
use cairo_vm.Types.Value.{Relocatable, eqb_rel, eqb_rel_iff}
use cairo_vm.Types.Errors.{VirtualMachineError, HintError}
use cairo_vm.Builtins.Allocated.{next_power_of_two}
use cairo_vm.Builtins.Runner.{HashOps}
use cairo_vm.Vm.State.{VirtualMachine}
use cairo_vm.Vm.Hints.{Running, HintProcessor, State, step}
use cairo_vm.Runner.State.{Program}

module _ (P : HintProcessor) where
  -- `get_hint_data`: every hint of the program is compiled before the run.
  compile_all : P.Processor → List P.Hint → Result VirtualMachineError (List P.HintData)
  compile_all p [] = ok []
  compile_all p (h ∷ hs) = elim (P.compile_hint p h) [
    | none ↦ err VirtualMachineError.compile_hint_fail
    | some d ↦ compile_all p hs >>= λ ds. ok (d ∷ ds)
  ]

  pub get_hint_data : Program P.Hint → P.Processor → Result VirtualMachineError (List P.HintData)
  unfolding compile_all
  get_hint_data program p = compile_all p program.hints_collection.hints

  -- The hints of an address, by its offset.
  pub hints_at : Program P.Hint → List P.HintData → Relocatable → List P.HintData
  unfolding slice_for_pc
  hints_at program hint_data pc = slice_for_pc program.hints_collection hint_data pc.offset

module _ ⦃F : FeltOps⦄ ⦃H : HashOps⦄ (P : HintProcessor) where
  abbrev pc_of : State P → Relocatable
  pc_of s = s.vm.run_context.pc

  -- What follows the loop.
  finished : Relocatable → State P → Result VirtualMachineError (State P)
  finished address s =
      if eqb_rel (pc_of s) address then ok s else err VirtualMachineError.unfinished_execution

  stops : Relocatable → State P → Bool
  stops address s = eqb_rel (pc_of s) address || P.consumed s.processor

  one_round : Program P.Hint → List P.HintData → State P → Result VirtualMachineError (State P)
  unfolding hints_at step
  one_round program hint_data s = do
    s' ← step P (hints_at P program hint_data (pc_of s)) s
    ok (record s' { processor = P.consume_step s'.processor })

  run_loop :
      ℕ
      → Program P.Hint
      → List P.HintData
      → Relocatable
      → State P
      → Option (Result VirtualMachineError (State P))
  unfolding finished stops one_round
  run_loop zero program hint_data address s = none
  run_loop (suc rounds) program hint_data address s = elim (stops address s) [
    | true ↦ some (finished address s)
    | false ↦ elim (one_round program hint_data s) [
      | ok s' ↦ run_loop rounds program hint_data address s'
      | err e ↦ some (err e)
    ]
  ]

  unfoldable pub run_until_pc :
      (rounds : ℕ)
      → Program P.Hint
      → Relocatable
      → State P
      → Option (Result VirtualMachineError (State P))
  unfolding get_hint_data run_loop
  run_until_pc rounds program address s = elim (get_hint_data P program s.processor) [
    | ok hint_data ↦ run_loop rounds program hint_data address s
    | err e ↦ some (err e)
  ]

  is_final : Option Relocatable → Relocatable → Bool
  is_final none pc = false
  is_final (some final) pc = eqb_rel final pc

  -- The source takes the hints of the first address for all steps.
  steps_with :
      List P.HintData → Option Relocatable → ℕ → State P → Result VirtualMachineError (State P)
  unfolding is_final step
  steps_with hint_data final_pc zero s = ok s
  steps_with hint_data final_pc (suc remaining) s = elim (is_final final_pc (pc_of s)) [
    | true ↦ err (VirtualMachineError.end_of_program (suc remaining))
    | false ↦ step P hint_data s >>= steps_with hint_data final_pc remaining
  ]

  unfoldable pub run_for_steps :
      Program P.Hint → Option Relocatable → ℕ → State P → Result VirtualMachineError (State P)
  unfolding get_hint_data hints_at steps_with
  run_for_steps program final_pc steps s = get_hint_data P program s.processor >>= λ hint_data.
      steps_with (hints_at P program hint_data (pc_of s)) final_pc steps s

  unfoldable pub run_until_steps :
      Program P.Hint → Option Relocatable → ℕ → State P → Result VirtualMachineError (State P)
  unfolding run_for_steps
  run_until_steps program final_pc steps s =
      run_for_steps program final_pc (steps - s.vm.current_step) s

  unfoldable pub run_until_next_power_of_2 :
      Program P.Hint → Option Relocatable → State P → Result VirtualMachineError (State P)
  unfolding run_until_steps next_power_of_two
  run_until_next_power_of_2 program final_pc s =
      run_until_steps program final_pc (next_power_of_two s.vm.current_step) s
