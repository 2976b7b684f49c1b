-- ===== src/Vm/Return.antt =====
-- Assertions, calls and returns of vm/src/vm/vm_core.rs, from the machine before an instruction
-- to the machine after it.
use cairo_vm.Base.{ℕ, ◌+◌, ◌<◌, ◌≡◌, sym, ap, ◌∙◌, Option, some, [], arith, subst, word}
use cairo_vm.Base.Int.{pos}
use cairo_vm.Base.Result.{Result, ok, ok-injective, ok_or, and_then}
use cairo_vm.Types.Felt.{FeltOps}
use cairo_vm.Types.Errors.{VirtualMachineError}
use cairo_vm.Types.Value.{
  Relocatable, rel, MaybeRelocatable, relocatable_value, IsValue, IsRelocatable,
}
use cairo_vm.Types.Relocatable.{add_offset, get_relocatable}
use cairo_vm.Types.Instruction.{Instruction, Opcode, Res, size}
use cairo_vm.RunContext.{RunContext, get_fp}
use cairo_vm.Memory.Store.{Memory, get}
use cairo_vm.Memory.Valid.{IsValid, get-IsValue, add_offset-IsRelocatable}
use cairo_vm.Builtins.Runner.{HashOps}
use cairo_vm.Vm.State.{VirtualMachine}
use cairo_vm.Vm.Operands.{Computed, compute_operands, compute_res}
use cairo_vm.Vm.Registers.{frame_of, next_fp, next_pc}
use cairo_vm.Vm.Step.{run_instruction}
use cairo_vm.Vm.Executed.{
  run_instruction-Executed, compute_operands-Addressed, compute_operands-Sourced,
}
use cairo_vm.Vm.Effects.{AreValues, Stand, Executed-StandIf, run_instruction-Stand}
use cairo_vm.Vm.Deduction.{Divides}
use cairo_vm.Vm.Consistent.{compute_operands-compute_res}
use cairo_vm.Vm.Call.{opcode_assertions-assert_eq, opcode_assertions-call, update_registers-Moved}
use cairo_vm.Vm.Frames.{
  IsCall, IsRet, call_dst_addr, call_op0_addr, ret_dst_addr, ret_op0_addr, ret_op1_addr,
}

module _ ⦃F : FeltOps⦄ where
  compute_res-op1 :
      (i : Instruction) (op0 op1 : MaybeRelocatable)
      → i.res ≡ Res.op1
      → compute_res i op0 op1 ≡ ok (some op1)
  unfolding compute_res
  compute_res-op1 i op0 op1 e = rw e

  jump_to :
      (p : Relocatable) (res : Option MaybeRelocatable)
      → some (relocatable_value p) ≡ res
      → Path
          (Result VirtualMachineError Relocatable)
          (ok p)
          (ok_or (and_then res get_relocatable) VirtualMachineError.unconstrained_res_jump)
  unfolding get_relocatable
  jump_to p res e = rw (← e)

module _ ⦃F : FeltOps⦄ ⦃H : HashOps⦄ where
  -- An `assert_eq` instruction that runs makes its equation true: `dst` is what the instruction
  -- computes from `op0` and `op1`, and the three stand in memory at their addresses. Before it,
  -- the memory is valid and has no relocation rules; the operands fit their cells, and division
  -- of `dst` by them undoes multiplication.
  pub run_instruction-assert_eq :
      (vm vm' : VirtualMachine) (i : Instruction) (o : Computed)
      → i.opcode ≡ Opcode.assert_eq
      → vm.segments.memory.relocation_rules ≡ []
      → IsValid vm.segments.memory
      → AreValues o.operands
      → Divides o.operands.dst o.operands.op0
      → Divides o.operands.dst o.operands.op1
      → compute_operands vm i ≡ ok o
      → run_instruction vm i ≡ ok vm'
      → (compute_res i o.operands.op0 o.operands.op1 ≡ ok (some o.operands.dst))
        × Stand vm'.segments.memory o.addresses o.operands
  run_instruction-assert_eq vm vm' i o assert rules valid values law₀ law₁ h run =
      let x = run_instruction-Executed vm vm' i run in
      let p : x.computed ≡ o = ok-injective (sym x.operands_found ∙ h) in
      let holds =
        opcode_assertions-assert_eq vm.run_context i x.computed.operands assert x.asserted in
      let res : o.operands.res ≡ some o.operands.dst =
        subst (λ q. q.operands.res ≡ some q.operands.dst) p holds in
      (
        compute_operands-compute_res vm i o law₀ law₁ valid values.op0 h ∙ ap ok res,
        run_instruction-Stand vm vm' i o rules values h run,
      )

  -- What a call leaves: the frame in memory, and `fp` just after it.
  pub record Called (vm : VirtualMachine) (i : Instruction) (vm' : VirtualMachine) : Type 0 where
    pub return_pc : Relocatable
    pub next : add_offset vm.run_context.pc (size i) ≡ ok return_pc
    pub saved_fp :
        get vm'.segments.memory (rel (pos 1) vm.run_context.ap)
        ≡ some (relocatable_value (get_fp vm.run_context))
    pub saved_pc :
        get vm'.segments.memory (rel (pos 1) (vm.run_context.ap + 1))
        ≡ some (relocatable_value return_pc)
    pub fp : vm'.run_context.fp ≡ vm.run_context.ap + 2

  -- A `call` that runs has saved the caller's `fp` at `[ap]` and the address of the next
  -- instruction at `[ap + 1]`, and `fp` points just after them. The memory has no relocation
  -- rules, the registers fit their types, and `ap` is not at the end of the address range.
  pub run_instruction-call :
      (vm vm' : VirtualMachine) (i : Instruction)
      → IsCall i
      → vm.segments.memory.relocation_rules ≡ []
      → IsRelocatable vm.run_context.pc
      → vm.run_context.fp < word
      → vm.run_context.ap + 2 < word
      → run_instruction vm i ≡ ok vm'
      → Called vm i vm'
  run_instruction-call vm vm' i s rules pc_fits fp_fits ap_fits run =
      let c = vm.run_context in
      let x = run_instruction-Executed vm vm' i run in
      let frame = opcode_assertions-call c i x.computed.operands s.opcode x.asserted in
      let places = compute_operands-Addressed vm i x.computed x.operands_found in
      let stand = Executed-StandIf vm vm' i x rules in
      let moved = update_registers-Moved i x.computed.operands c x.registers x.moved in
      let m' = vm'.segments.memory in
      let dst_at = ok-injective (sym (call_dst_addr c i s (omega arith)) ∙ places.dst) in
      let op0_at = ok-injective (sym (call_op0_addr c i s (omega arith)) ∙ places.op0) in
      let fp_is_value : IsValue (relocatable_value (get_fp c)) = record {
        segment = omega arith;
        offset = fp_fits;
      } in
      let pc_is_value : IsValue (relocatable_value frame.return_pc) =
        add_offset-IsRelocatable c.pc (size i) frame.return_pc pc_fits frame.next in
      record {
        return_pc = frame.return_pc;
        next = frame.next;
        saved_fp =
            ap (get m') dst_at
            ∙ stand.dst (subst IsValue (sym frame.dst) fp_is_value)
            ∙ ap some frame.dst;
        saved_pc =
            ap (get m') op0_at
            ∙ stand.op0 (subst IsValue (sym frame.op0) pc_is_value)
            ∙ ap some frame.op0;
        fp =
            ap (λ r. r.fp) x.result_registers
            ∙ ok-injective (
                sym moved.fp
                ∙ ap (λ u. next_fp u c x.computed.operands) s.fp_update
                ∙ ap ok (ground arith));
      }

  -- A `ret` that runs takes `fp` from `[fp - 2]` and `pc` from `[fp - 1]`, if addresses stand
  -- there. The memory is valid.
  pub run_instruction-ret :
      (vm vm' : VirtualMachine) (i : Instruction) (n : ℕ) (saved_fp saved_pc : Relocatable)
      → IsRet i
      → IsValid vm.segments.memory
      → vm.run_context.fp ≡ n + 2
      → get vm.segments.memory (rel (pos 1) n) ≡ some (relocatable_value saved_fp)
      → get vm.segments.memory (rel (pos 1) (n + 1)) ≡ some (relocatable_value saved_pc)
      → run_instruction vm i ≡ ok vm'
      → (vm'.run_context.fp ≡ saved_fp.offset) × (vm'.run_context.pc ≡ saved_pc)
  run_instruction-ret vm vm' i n saved_fp saved_pc s valid fp_at has_fp has_pc run =
      let (c, m) : RunContext × Memory = (vm.run_context, vm.segments.memory) in
      let x = run_instruction-Executed vm vm' i run in
      let o = x.computed in
      let places = compute_operands-Addressed vm i o x.operands_found in
      let source = compute_operands-Sourced vm i o x.operands_found in
      let moved = update_registers-Moved i o.operands c x.registers x.moved in
      let dst_at = ok-injective (sym (ret_dst_addr c i n s fp_at) ∙ places.dst) in
      let op0_at = ok-injective (sym (ret_op0_addr c i n s fp_at) ∙ places.op0) in
      let op1_at =
        ok-injective (sym (ret_op1_addr c i (get m o.addresses.op0_addr) n s fp_at) ∙ places.op1) in
      let dst = source.dst (relocatable_value saved_fp) (ap (get m) (sym dst_at) ∙ has_fp) in
      let op0 = source.op0 (relocatable_value saved_pc) (ap (get m) (sym op0_at) ∙ has_pc) in
      let op1 = source.op1 (relocatable_value saved_pc) (ap (get m) (sym op1_at) ∙ has_pc) in
      let op0_fits = subst IsValue op0 (get-IsValue m _ _ valid has_pc) in
      let res : some (relocatable_value saved_pc) ≡ o.operands.res =
        ap some op1
        ∙ ok-injective (
            sym (compute_res-op1 i o.operands.op0 o.operands.op1 s.res)
            ∙ compute_operands-compute_res vm i o (subst (λ d. Divides d o.operands.op0) dst tt)
                (subst (λ d. Divides d o.operands.op1) dst tt) valid op0_fits x.operands_found) in
      (
        ap (λ r. r.fp) x.result_registers
            ∙ sym (
                ok-injective (
                  ap (λ d. frame_of d) dst
                  ∙ ap (λ u. next_fp u c o.operands) (sym s.fp_update)
                  ∙ moved.fp)),
        ap (λ r. r.pc) x.result_registers
            ∙ sym (
                ok-injective (
                  jump_to saved_pc o.operands.res res
                  ∙ ap (λ u. next_pc u i c o.operands) (sym s.pc_update)
                  ∙ moved.pc)),
      )
