-- ===== src/Vm/Hints/Metered.antt =====
-- vm/src/vm/vm_core.rs: hints that do not give a run more steps than it had.
use cairo_vm.Base.{ℕ, suc, ◌≤◌, ◌<◌, ◌≡◌, subst, true, List, [], ◌∷◌, arith}
use cairo_vm.Base.Result.{ok, map_err, bind-ok-elim, map_err-eq-ok, ok-injective}
use cairo_vm.Types.Felt.{FeltOps}
use cairo_vm.Types.Errors.{VirtualMachineError}
use cairo_vm.Builtins.Runner.{HashOps}
use cairo_vm.Vm.Hints.{Running, HintProcessor, State, step_hint, hints_from, step}
use cairo_vm.Vm.Step.{step_instruction}

-- A processor that counts the steps that are left: with none left the run is consumed, each step
-- takes one, and no hint adds any.
pub record Metered (P : HintProcessor) : Type 0 where
  pub steps_left : P.Processor → ℕ
  pub consumed_lem : (p : P.Processor) → steps_left p ≡ 0 → P.consumed p ≡ true
  pub consume_step_lem :
      (p : P.Processor) → 0 < steps_left p → steps_left (P.consume_step p) < steps_left p
  pub consume_step-le : (p : P.Processor) → steps_left (P.consume_step p) ≤ steps_left p
  pub execute_hint_lem :
      (d : P.HintData) (s s' : Running P.Processor P.Value)
      → P.execute_hint d s ≡ ok s'
      → steps_left s'.processor ≤ steps_left s.processor

module _ ⦃F : FeltOps⦄ ⦃H : HashOps⦄ (P : HintProcessor) (M : Metered P) where
  hints_from-le :
      (i : ℕ) (hs : List P.HintData) (s s' : State P)
      → hints_from P i hs s ≡ ok s'
      → M.steps_left s'.processor ≤ M.steps_left s.processor
  unfolding hints_from
  hints_from-le i [] s s' h =
      subst (λ (x : State P). M.steps_left x.processor ≤ M.steps_left s.processor) (ok-injective h)
        (omega arith)
  hints_from-le i (d ∷ hs) s s' h =
      bind-ok-elim (map_err (VirtualMachineError.hint i) (P.execute_hint d s)) _ h λ t e h₁.
        omega
          (arith, M.execute_hint_lem d s t (map_err-eq-ok _ _ e), hints_from-le (suc i) hs t s' h₁)

  pub step-le :
      (hs : List P.HintData) (s s' : State P)
      → step P hs s ≡ ok s'
      → M.steps_left s'.processor ≤ M.steps_left s.processor
  unfolding step step_hint
  step-le hs s s' h = bind-ok-elim (step_hint P hs s) _ h λ t e h₁.
      bind-ok-elim (step_instruction t.vm) _ h₁ λ vm e₁ h₂.
        subst (λ (x : State P). M.steps_left x.processor ≤ M.steps_left s.processor)
          (ok-injective h₂) (hints_from-le 0 hs s t e)
