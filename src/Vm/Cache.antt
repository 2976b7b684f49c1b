-- ===== src/Vm/Cache.antt =====
-- The instruction cache of vm/src/vm/vm_core.rs against a step that always decodes the memory.
use cairo_vm.Base.{
  ℕ, ◌+◌, ◌≡◌, refl, Option, none, some, List, [], leb, Bool-cases, inl, inr, set, grow, leb→le,
}
use cairo_vm.Base.Int.{pos, eqb_ℤ_iff}
use cairo_vm.Base.Result.{Result, ok, err, ◌>>=◌, Result-cases}
use cairo_vm.Types.Felt.{FeltOps}
use cairo_vm.Types.Errors.{VirtualMachineError}
use cairo_vm.Types.Instruction.{Instruction}
use cairo_vm.Builtins.Runner.{HashOps}
use cairo_vm.Vm.State.{VirtualMachine}
use cairo_vm.Vm.Step.{
  decode_current_instruction, run_or_skip, step_instruction, step_cached, is_program_segment,
  first_length,
}
use cairo_vm.Vm.Coherent.{IsCoherent, decode_current_instruction-beyond, cached_instruction-decodes}

-- The machine with its cache emptied.
abbrev pub forget : VirtualMachine → VirtualMachine
forget vm = record vm { instruction_cache = [] }

abbrev pub forget_result :
    Result VirtualMachineError VirtualMachine → Result VirtualMachineError VirtualMachine
forget_result (ok vm) = ok (forget vm)
forget_result (err e) = err e

module _ ⦃F : FeltOps⦄ ⦃H : HashOps⦄ where
  -- A step that decodes the memory anew each time.
  abbrev pub plain_step : VirtualMachine → Result VirtualMachineError VirtualMachine
  plain_step vm = do
    i ← decode_current_instruction vm.segments.memory vm.run_context
    run_or_skip vm i

  forget-store :
      (vm : VirtualMachine) (f : VirtualMachine → List (Option Instruction))
      (r : Result VirtualMachineError VirtualMachine)
      → forget_result (r >>= λ w. ok (record w { instruction_cache = f w })) ≡ forget_result r
  forget-store vm f (ok w) = refl
  forget-store vm f (err e) = refl

  step_cached-plain_step :
      (vm : VirtualMachine) (n : ℕ)
      → IsCoherent vm
      → vm.run_context.pc.segment_index ≡ pos 0
      → first_length vm.segments.memory.data_segments ≡ some n
      → forget_result (step_cached vm (some n) vm.run_context.pc.offset)
        ≡ forget_result (plain_step vm)
  step_cached-plain_step vm n coherent first len =
      elim (Bool-cases (leb n vm.run_context.pc.offset)) [
        | inl beyond ↦ rw (
          beyond,
          decode_current_instruction-beyond vm.segments.memory vm.run_context n first len
              (leb→le _ _ beyond),
        )
        | inr inside ↦
            elim (Result-cases (decode_current_instruction vm.segments.memory vm.run_context)) [
              | inl (i, e) ↦
                  rw
                    (
                      inside,
                      cached_instruction-decodes vm (vm.run_context.pc.offset + 1) coherent first,
                      e,
                    )
                    (forget-store vm
                      (λ w.
                        set (grow vm.instruction_cache (vm.run_context.pc.offset + 1) none)
                          vm.run_context.pc.offset (some i))
                      (run_or_skip vm i))
              | inr (x, e) ↦ rw (
                inside,
                cached_instruction-decodes vm (vm.run_context.pc.offset + 1) coherent first,
                e,
              )
            ]
      ]

  -- With a coherent cache and a program segment, a step does what a step that decodes the memory
  -- anew does, the cache aside: the same machine, or the same error.
  pub step_instruction-plain_step :
      (vm : VirtualMachine) (n : ℕ)
      → IsCoherent vm
      → first_length vm.segments.memory.data_segments ≡ some n
      → forget_result (step_instruction vm) ≡ forget_result (plain_step vm)
  unfolding step_instruction
  step_instruction-plain_step vm n coherent len =
      elim (Bool-cases (is_program_segment vm.run_context.pc.segment_index)) [
        | inl first ↦
            rw (first, len) (step_cached-plain_step vm n coherent ((eqb_ℤ_iff _ _).0 first) len)
        | inr other ↦ rw other
      ]
