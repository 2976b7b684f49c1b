-- ===== src/Vm/Frame.antt =====
-- What a step of vm/src/vm/vm_core.rs leaves alone: the values in memory.
use cairo_vm.Base.{
  ◌≡◌, refl, ◌∙◌, Bool, true, false, some, List, Bool-cases, inl, inr, if-eq_then, if-eq_else,
}
use cairo_vm.Base.Int.{ℤ, pos, negsuc}
use cairo_vm.Base.Result.{ok, bind-ok-elim, map_err-eq-ok}
use cairo_vm.Types.Felt.{FeltOps}
use cairo_vm.Types.Value.{Relocatable, MaybeRelocatable}
use cairo_vm.Types.Instruction.{Instruction}
use cairo_vm.Memory.Cell.{MemoryCell}
use cairo_vm.Memory.Store.{Memory, get, mark_as_accessed, with_segments}
use cairo_vm.Memory.WriteOnce.{get-insert_mono}
use cairo_vm.Memory.Access.{value_at-mark_as_accessed}
use cairo_vm.Builtins.Runner.{HashOps}
use cairo_vm.Vm.State.{VirtualMachine, OperandsAddresses, Operands, DeducedOperands}
use cairo_vm.Vm.Operands.{compute_operands}
use cairo_vm.Vm.Registers.{update_registers}
use cairo_vm.Vm.Step.{
  insert_deduced_operands, insert_if, mark_operands, run_instruction, run_or_skip,
  opcode_assertions,
}

with_segments-rules :
    (m : Memory) (ss : List (List MemoryCell)) (s : ℤ)
    → (with_segments m s ss).relocation_rules ≡ m.relocation_rules
with_segments-rules m ss (pos n) = refl
with_segments-rules m ss (negsuc n) = refl

module _ ⦃F : FeltOps⦄ where
  -- What reads as a value goes on to read as that value.
  abbrev pub Keeps : Memory → Memory → Type 0
  Keeps m m' = (r : Relocatable) (w : MaybeRelocatable) → get m r ≡ some w → get m' r ≡ some w

  mark_as_accessed-rules :
      (m : Memory) (a : Relocatable) → (mark_as_accessed m a).relocation_rules ≡ m.relocation_rules
  unfolding mark_as_accessed
  mark_as_accessed-rules m a = with_segments-rules m _ a.segment_index

  -- Marking an address changes no reading.
  pub get-mark_as_accessed :
      (m : Memory) (a r : Relocatable) → get (mark_as_accessed m a) r ≡ get m r
  unfolding get
  get-mark_as_accessed m a r = rw (value_at-mark_as_accessed m a r, mark_as_accessed-rules m a)

  pub get-mark_operands :
      (a : OperandsAddresses) (m : Memory) (r : Relocatable) → get (mark_operands a m) r ≡ get m r
  unfolding mark_operands
  get-mark_operands a m r =
      get-mark_as_accessed (mark_as_accessed (mark_as_accessed m a.dst_addr) a.op0_addr) a.op1_addr
        r
      ∙ get-mark_as_accessed (mark_as_accessed m a.dst_addr) a.op0_addr r
      ∙ get-mark_as_accessed m a.dst_addr r

  pub insert_if-Keeps :
      (b : Bool) (a : Relocatable) (v : MaybeRelocatable) (m m' : Memory)
      → insert_if b a v m ≡ ok m'
      → Keeps m m'
  insert_if-Keeps false a v m m' h r w g = let p : m ≡ m' = cc h in rw (← p) g
  insert_if-Keeps true a v m m' h r w g = get-insert_mono m m' a r v w (map_err-eq-ok _ _ h) g

  -- The writes of an instruction keep what is there.
  pub insert_deduced_operands-Keeps :
      (d : DeducedOperands) (o : Operands) (a : OperandsAddresses) (m m' : Memory)
      → insert_deduced_operands d o a m ≡ ok m'
      → Keeps m m'
  unfolding insert_deduced_operands
  insert_deduced_operands-Keeps d o a m m' h r w g =
      bind-ok-elim (insert_if d.op0 a.op0_addr o.op0 m) _ h λ m₁ e₁ h₁.
        bind-ok-elim (insert_if d.op1 a.op1_addr o.op1 m₁) _ h₁ λ m₂ e₂ h₂.
          insert_if-Keeps d.dst a.dst_addr o.dst m₂ m' h₂ r w (
            insert_if-Keeps d.op1 a.op1_addr o.op1 m₁ m₂ e₂ r w
              (insert_if-Keeps d.op0 a.op0_addr o.op0 m m₁ e₁ r w g))

module _ ⦃F : FeltOps⦄ ⦃H : HashOps⦄ where
  pub run_instruction-Keeps :
      (vm vm' : VirtualMachine) (i : Instruction)
      → run_instruction vm i ≡ ok vm'
      → Keeps vm.segments.memory vm'.segments.memory
  unfolding run_instruction
  run_instruction-Keeps vm vm' i h r w g = bind-ok-elim (compute_operands vm i) _ h λ o e₁ h₁.
      bind-ok-elim (insert_deduced_operands o.deduced o.operands o.addresses vm.segments.memory) _
        h₁
        λ m e₂ h₂. bind-ok-elim (opcode_assertions vm.run_context i o.operands) _ h₂ λ t e₃ h₃.
          bind-ok-elim (update_registers i o.operands vm.run_context) _ h₃ λ c e₄ h₄.
            let p : mark_operands o.addresses m ≡ vm'.segments.memory = cc h₄ in
            rw (← p) (
              get-mark_operands o.addresses m r
              ∙ insert_deduced_operands-Keeps o.deduced o.operands o.addresses _ m e₂ r w g)

  pub run_or_skip-Keeps :
      (vm vm' : VirtualMachine) (i : Instruction)
      → run_or_skip vm i ≡ ok vm'
      → Keeps vm.segments.memory vm'.segments.memory
  unfolding run_or_skip
  run_or_skip-Keeps vm vm' i h r w g = elim (Bool-cases vm.skip_instruction_execution) [
    | inl skip ↦
        let p : vm.segments.memory ≡ vm'.segments.memory =
          cc (if-eq_then vm.skip_instruction_execution _ _ skip h) in
        rw (← p) g
    | inr run ↦
        run_instruction-Keeps vm vm' i (if-eq_else vm.skip_instruction_execution _ _ run h) r w g
  ]

  run_instruction-cache :
      (vm vm' : VirtualMachine) (i : Instruction)
      → run_instruction vm i ≡ ok vm'
      → vm'.instruction_cache ≡ vm.instruction_cache
  unfolding run_instruction
  run_instruction-cache vm vm' i h = bind-ok-elim (compute_operands vm i) _ h λ o e₁ h₁.
      bind-ok-elim (insert_deduced_operands o.deduced o.operands o.addresses vm.segments.memory) _
        h₁
        λ m e₂ h₂. bind-ok-elim (opcode_assertions vm.run_context i o.operands) _ h₂ λ t e₃ h₃.
          bind-ok-elim (update_registers i o.operands vm.run_context) _ h₃ λ c e₄ h₄. cc h₄

  pub run_or_skip-cache :
      (vm vm' : VirtualMachine) (i : Instruction)
      → run_or_skip vm i ≡ ok vm'
      → vm'.instruction_cache ≡ vm.instruction_cache
  unfolding run_or_skip
  run_or_skip-cache vm vm' i h = elim (Bool-cases vm.skip_instruction_execution) [
    | inl skip ↦ cc (if-eq_then vm.skip_instruction_execution _ _ skip h)
    | inr run ↦ run_instruction-cache vm vm' i (if-eq_else vm.skip_instruction_execution _ _ run h)
  ]
