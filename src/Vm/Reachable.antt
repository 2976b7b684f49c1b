-- ===== src/Vm/Reachable.antt =====
-- vm/src/vm/vm_core.rs: sequences of `step_instruction` without hints, and what holds along them.
use cairo_vm.Base.{
  ℕ, ◌+◌, ◌<◌, ◌≡◌, sym, ap, ◌∙◌, Option, none, some, [], Bool-cases, inl, inr, if-eq_then,
  if-eq_else, word,
}
use cairo_vm.Base.Int.{pos}
use cairo_vm.Base.Result.{ok, bind-ok-elim}
use cairo_vm.Types.Felt.{FeltOps}
use cairo_vm.Types.Value.{Relocatable, rel, MaybeRelocatable, IsRelocatable}
use cairo_vm.Types.Relocatable.{add_offset}
use cairo_vm.Types.Instruction.{Instruction, size}
use cairo_vm.RunContext.{get_fp}
use cairo_vm.Memory.Store.{get}
use cairo_vm.Memory.Valid.{IsValid}
use cairo_vm.Builtins.Runner.{HashOps}
use cairo_vm.Vm.State.{VirtualMachine}
use cairo_vm.Vm.Step.{
  decode_current_instruction, step_cached, first_length, is_program_segment, run_instruction,
  step_instruction,
}
use cairo_vm.Vm.Frame.{Keeps, run_or_skip-Keeps}
use cairo_vm.Vm.Coherent.{IsCoherent, step_cached-inside, step_instruction-IsCoherent}
use cairo_vm.Vm.Frames.{IsCall, IsRet}
use cairo_vm.Vm.Return.{run_instruction-call, run_instruction-ret}

module _ ⦃F : FeltOps⦄ ⦃H : HashOps⦄ where
  pub data Steps : VirtualMachine → VirtualMachine → Type 0 where
    done : {vm : VirtualMachine} → Steps vm vm
    next : {vm w vm' : VirtualMachine} → step_instruction vm ≡ ok w → Steps w vm' → Steps vm vm'

  step_cached-Keeps :
      (vm vm' : VirtualMachine) (len : Option ℕ)
      → step_cached vm len vm.run_context.pc.offset ≡ ok vm'
      → Keeps vm.segments.memory vm'.segments.memory
  step_cached-Keeps vm vm' none h r v g = cc h
  step_cached-Keeps vm vm' (some n) h r v g =
      let (i, w, e, run, p) = step_cached-inside vm n vm' h in
      ap (λ x. get x.segments.memory r) p ∙ run_or_skip-Keeps vm w i run r v g

  pub step_instruction-Keeps :
      (vm vm' : VirtualMachine)
      → step_instruction vm ≡ ok vm'
      → Keeps vm.segments.memory vm'.segments.memory
  unfolding step_instruction
  step_instruction-Keeps vm vm' h =
      elim (Bool-cases (is_program_segment vm.run_context.pc.segment_index)) [
        | inl first ↦
            step_cached-Keeps vm vm' (first_length vm.segments.memory.data_segments)
              (if-eq_then _ _ _ first h)
        | inr other ↦
            bind-ok-elim (decode_current_instruction vm.segments.memory vm.run_context) _
              (if-eq_else _ _ _ other h) λ i e run. run_or_skip-Keeps vm vm' i run
      ]

  -- Throughout any number of successful `step_instruction`s one after the other, with no hint
  -- between them, an address that reads as a value goes on to read as that value.
  pub Steps-Keeps :
      (vm vm' : VirtualMachine) (r : Relocatable) (w : MaybeRelocatable)
      → Steps vm vm'
      → get vm.segments.memory r ≡ some w
      → get vm'.segments.memory r ≡ some w
  Steps-Keeps vm vm' r w done g = g
  Steps-Keeps vm vm' r w (next {w = u} h rest) g =
      Steps-Keeps u vm' r w rest (step_instruction-Keeps vm u h r w g)

  -- Throughout such steps a coherent cache stays coherent.
  pub Steps-IsCoherent : (vm vm' : VirtualMachine) → Steps vm vm' → IsCoherent vm → IsCoherent vm'
  Steps-IsCoherent vm vm' done coherent = coherent
  Steps-IsCoherent vm vm' (next {w = u} h rest) coherent =
      Steps-IsCoherent u vm' rest (step_instruction-IsCoherent vm u coherent h)

  -- A `ret` that runs in the frame that a `call` made, however many steps lie between them, goes
  -- back to the instruction after the call and restores the caller's `fp`. The call starts in a
  -- memory without relocation rules and with registers that fit their types, and the memory is
  -- valid at the return.
  pub call-ret :
      (vm₀ vm₁ vm₂ vm₃ : VirtualMachine) (i j : Instruction)
      → IsCall i
      → IsRet j
      → vm₀.segments.memory.relocation_rules ≡ []
      → IsRelocatable vm₀.run_context.pc
      → vm₀.run_context.fp < word
      → vm₀.run_context.ap + 2 < word
      → run_instruction vm₀ i ≡ ok vm₁
      → Steps vm₁ vm₂
      → vm₂.run_context.fp ≡ vm₁.run_context.fp
      → IsValid vm₂.segments.memory
      → run_instruction vm₂ j ≡ ok vm₃
      → (vm₃.run_context.fp ≡ vm₀.run_context.fp)
        × (add_offset vm₀.run_context.pc (size i) ≡ ok vm₃.run_context.pc)
  call-ret vm₀ vm₁ vm₂ vm₃ i j s t rules pc_fits fp_fits ap_fits call steps same valid ret =
      let c = run_instruction-call vm₀ vm₁ i s rules pc_fits fp_fits ap_fits call in
      let n = vm₀.run_context.ap in
      let (fp, pc) =
        run_instruction-ret vm₂ vm₃ j n (get_fp vm₀.run_context) c.return_pc t valid (same ∙ c.fp)
          (Steps-Keeps vm₁ vm₂ (rel (pos 1) n) _ steps c.saved_fp)
          (Steps-Keeps vm₁ vm₂ (rel (pos 1) (n + 1)) _ steps c.saved_pc) ret in
      (fp, c.next ∙ ap ok (sym pc))
