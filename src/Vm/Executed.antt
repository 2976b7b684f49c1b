-- ===== src/Vm/Executed.antt =====
-- The steps of one executed instruction of vm/src/vm/vm_core.rs, and where its operands come from.
use cairo_vm.Base.{◌≡◌, refl, sym, ap, ◌∙◌, not, Option, none, some, List, subst, is_some}
use cairo_vm.Base.Result.{ok, ok-injective, bind-ok-elim}
use cairo_vm.Types.Felt.{FeltOps}
use cairo_vm.Types.Value.{Relocatable, MaybeRelocatable}
use cairo_vm.Types.Instruction.{Instruction}
use cairo_vm.RunContext.{RunContext, compute_dst_addr, compute_op0_addr, compute_op1_addr}
use cairo_vm.Memory.Store.{Memory, get}
use cairo_vm.Builtins.Runner.{HashOps, BuiltinRunner}
use cairo_vm.Vm.State.{VirtualMachine}
use cairo_vm.Vm.Operands.{Computed, compute_operands, find_op0, find_op1, find_res, find_dst}
use cairo_vm.Vm.Registers.{update_registers}
use cairo_vm.Vm.Step.{insert_deduced_operands, mark_operands, run_instruction, opcode_assertions}

module _ ⦃F : FeltOps⦄ ⦃H : HashOps⦄ where
  -- The steps of an instruction that was executed.
  pub record Executed (vm : VirtualMachine) (i : Instruction) (vm' : VirtualMachine) : Type 0 where
    pub computed : Computed
    pub memory : Memory
    pub registers : RunContext
    pub operands_found : compute_operands vm i ≡ ok computed
    pub written :
        insert_deduced_operands computed.deduced computed.operands computed.addresses
          vm.segments.memory
        ≡ ok memory
    pub asserted : opcode_assertions vm.run_context i computed.operands ≡ ok tt
    pub moved : update_registers i computed.operands vm.run_context ≡ ok registers
    pub result_memory : vm'.segments.memory ≡ mark_operands computed.addresses memory
    pub result_registers : vm'.run_context ≡ registers

  pub run_instruction-Executed :
      (vm vm' : VirtualMachine) (i : Instruction)
      → run_instruction vm i ≡ ok vm'
      → Executed vm i vm'
  unfolding run_instruction
  run_instruction-Executed vm vm' i h = bind-ok-elim (compute_operands vm i) _ h λ o e₁ h₁.
      bind-ok-elim (insert_deduced_operands o.deduced o.operands o.addresses vm.segments.memory) _
        h₁
        λ m e₂ h₂. bind-ok-elim (opcode_assertions vm.run_context i o.operands) _ h₂ λ t e₃ h₃.
          bind-ok-elim (update_registers i o.operands vm.run_context) _ h₃ λ c e₄ h₄. record {
            computed = o;
            memory = m;
            registers = c;
            operands_found = e₁;
            written = e₂;
            asserted = e₃;
            moved = e₄;
            result_memory = cc h₄;
            result_registers = cc h₄;
          }

  -- An operand is read from memory, or is not there and marked as deduced.
  pub record Sourced (m : Memory) (o : Computed) : Type 0 where
    pub op0 : (v : MaybeRelocatable) → get m o.addresses.op0_addr ≡ some v → v ≡ o.operands.op0
    pub op1 : (v : MaybeRelocatable) → get m o.addresses.op1_addr ≡ some v → v ≡ o.operands.op1
    pub dst : (v : MaybeRelocatable) → get m o.addresses.dst_addr ≡ some v → v ≡ o.operands.dst
    pub missing_op0 : o.deduced.op0 ≡ not (is_some (get m o.addresses.op0_addr))
    pub missing_op1 : o.deduced.op1 ≡ not (is_some (get m o.addresses.op1_addr))
    pub missing_dst : o.deduced.dst ≡ not (is_some (get m o.addresses.dst_addr))

  find_op0-some :
      (vm : VirtualMachine) (a : Relocatable) (i : Instruction) (d p q : Option MaybeRelocatable)
      (v : MaybeRelocatable) (f : MaybeRelocatable × Option MaybeRelocatable × List BuiltinRunner)
      → find_op0 vm a i d p q ≡ ok f
      → q ≡ some v
      → v ≡ f.0
  find_op0-some vm a i d p none v f h e = cc e
  find_op0-some vm a i d p (some w) v f h e =
      let k : (w, none, vm.builtin_runners) ≡ f = cc h in sym (ap (λ x. x.0) (sym k) ∙ (cc e))

  pub find_op1-some :
      (vm : VirtualMachine) (bs : List BuiltinRunner) (a : Relocatable) (i : Instruction)
      (res d : Option MaybeRelocatable) (op0 : MaybeRelocatable) (q : Option MaybeRelocatable)
      (v : MaybeRelocatable) (f : MaybeRelocatable × Option MaybeRelocatable × List BuiltinRunner)
      → find_op1 vm bs a i res d op0 q ≡ ok f
      → q ≡ some v
      → v ≡ f.0
  find_op1-some vm bs a i res d op0 none v f h e = cc e
  find_op1-some vm bs a i res d op0 (some w) v f h e =
      let k : (w, res, bs) ≡ f = cc h in sym (ap (λ x. x.0) (sym k) ∙ (cc e))

  pub find_dst-some :
      (c : RunContext) (i : Instruction) (res q : Option MaybeRelocatable) (v d : MaybeRelocatable)
      → find_dst c i res q ≡ ok d
      → q ≡ some v
      → v ≡ d
  find_dst-some c i res none v d h e = cc e
  find_dst-some c i res (some w) v d h e = cc (h, e)

  pub compute_operands-Sourced :
      (vm : VirtualMachine) (i : Instruction) (o : Computed)
      → compute_operands vm i ≡ ok o
      → Sourced vm.segments.memory o
  unfolding compute_operands
  compute_operands-Sourced vm i o h =
      let m = vm.segments.memory in
      bind-ok-elim (compute_dst_addr vm.run_context i) _ h λ dst_addr e₁ h₁.
        bind-ok-elim (compute_op0_addr vm.run_context i) _ h₁ λ op0_addr e₂ h₂.
          bind-ok-elim (compute_op1_addr vm.run_context i (get m op0_addr)) _ h₂ λ op1_addr e₃ h₃.
            bind-ok-elim (find_op0 vm op0_addr i (get m dst_addr) (get m op1_addr) (get m op0_addr))
              _ h₃
              λ f₀ e₄ h₄.
                bind-ok-elim
                  (find_op1 vm f₀.2 op1_addr i f₀.1 (get m dst_addr) f₀.0 (get m op1_addr)) _ h₄
                  λ f₁ e₅ h₅. bind-ok-elim (find_res i f₀.0 f₁.0 f₁.1) _ h₅ λ res e₆ h₆.
                    bind-ok-elim (find_dst vm.run_context i res (get m dst_addr)) _ h₆ λ dst e₇ h₇.
                      subst (Sourced m) (ok-injective h₇) (record {
                        op0 = λ v e.
                            find_op0-some vm op0_addr i (get m dst_addr) (get m op1_addr)
                              (get m op0_addr) v f₀ e₄ e;
                        op1 = λ v e.
                            find_op1-some vm f₀.2 op1_addr i f₀.1 (get m dst_addr) f₀.0
                              (get m op1_addr) v f₁ e₅ e;
                        dst = λ v e. find_dst-some vm.run_context i res (get m dst_addr) v dst e₇ e;
                        missing_op0 = refl;
                        missing_op1 = refl;
                        missing_dst = refl;
                      })

  -- Where the operands are.
  pub record Addressed (c : RunContext) (m : Memory) (i : Instruction) (o : Computed) : Type 0 where
    pub dst : compute_dst_addr c i ≡ ok o.addresses.dst_addr
    pub op0 : compute_op0_addr c i ≡ ok o.addresses.op0_addr
    pub op1 : compute_op1_addr c i (get m o.addresses.op0_addr) ≡ ok o.addresses.op1_addr

  pub compute_operands-Addressed :
      (vm : VirtualMachine) (i : Instruction) (o : Computed)
      → compute_operands vm i ≡ ok o
      → Addressed vm.run_context vm.segments.memory i o
  unfolding compute_operands
  compute_operands-Addressed vm i o h =
      let m = vm.segments.memory in
      bind-ok-elim (compute_dst_addr vm.run_context i) _ h λ dst_addr e₁ h₁.
        bind-ok-elim (compute_op0_addr vm.run_context i) _ h₁ λ op0_addr e₂ h₂.
          bind-ok-elim (compute_op1_addr vm.run_context i (get m op0_addr)) _ h₂ λ op1_addr e₃ h₃.
            bind-ok-elim (find_op0 vm op0_addr i (get m dst_addr) (get m op1_addr) (get m op0_addr))
              _ h₃
              λ f₀ e₄ h₄.
                bind-ok-elim
                  (find_op1 vm f₀.2 op1_addr i f₀.1 (get m dst_addr) f₀.0 (get m op1_addr)) _ h₄
                  λ f₁ e₅ h₅. bind-ok-elim (find_res i f₀.0 f₁.0 f₁.1) _ h₅ λ res e₆ h₆.
                    bind-ok-elim (find_dst vm.run_context i res (get m dst_addr)) _ h₆ λ dst e₇ h₇.
                      subst (Addressed vm.run_context m i) (ok-injective h₇)
                        (record { dst = e₁; op0 = e₂; op1 = e₃ })
