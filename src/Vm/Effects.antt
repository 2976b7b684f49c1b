-- ===== src/Vm/Effects.antt =====
-- What one executed instruction of vm/src/vm/vm_core.rs leaves in memory and registers.
use cairo_vm.Base.{
  ◌≡◌, refl, sym, ap, ◌∙◌, Bool, true, false, not, some, [], Option-cases, inl, inr, subst, is_some,
}
use cairo_vm.Base.Result.{ok, ok-injective, bind-ok-elim, map_err-eq-ok}
use cairo_vm.Types.Felt.{FeltOps}
use cairo_vm.Types.Value.{Relocatable, MaybeRelocatable, IsValue}
use cairo_vm.Types.Instruction.{Instruction}
use cairo_vm.Memory.Store.{Memory, get}
use cairo_vm.Memory.Valid.{get-no_rules}
use cairo_vm.Memory.WriteOnce.{insert-Updated, rules-Inserted}
use cairo_vm.Memory.Insert.{insert-Inserted}
use cairo_vm.Builtins.Runner.{HashOps}
use cairo_vm.Vm.State.{VirtualMachine, OperandsAddresses, Operands, DeducedOperands}
use cairo_vm.Vm.Operands.{Computed, compute_operands}
use cairo_vm.Vm.Step.{insert_deduced_operands, insert_if, run_instruction}
use cairo_vm.Vm.Frame.{get-mark_operands, insert_if-Keeps}
use cairo_vm.Vm.Executed.{Executed, run_instruction-Executed, Sourced, compute_operands-Sourced}

module _ ⦃F : FeltOps⦄ where
  insert_if-rules :
      (b : Bool) (a : Relocatable) (v : MaybeRelocatable) (m m' : Memory)
      → insert_if b a v m ≡ ok m'
      → m'.relocation_rules ≡ m.relocation_rules
  insert_if-rules false a v m m' h = ap (λ x. x.relocation_rules) (sym (ok-injective h))
  insert_if-rules true a v m m' h = rules-Inserted (insert-Inserted m m' a v (map_err-eq-ok _ _ h))

  insert_if-stands :
      (b : Bool) (a : Relocatable) (v : MaybeRelocatable) (m m' : Memory)
      → m.relocation_rules ≡ []
      → IsValue v
      → insert_if b a v m ≡ ok m'
      → (b ≡ false → get m a ≡ some v)
      → get m' a ≡ some v
  insert_if-stands false a v m m' rules hv h old = rw (← ok-injective h) (old refl)
  insert_if-stands true a v m m' rules hv h old =
      get-no_rules m' a v (insert_if-rules true a v m m' h ∙ rules)
        (insert-Updated m m' a v hv (map_err-eq-ok _ _ h)).here

  there :
      (m : Memory) (a : Relocatable) (v : MaybeRelocatable) (b : Bool)
      → ((w : MaybeRelocatable) → get m a ≡ some w → w ≡ v)
      → b ≡ not (is_some (get m a))
      → b ≡ false
      → get m a ≡ some v
  there m a v b source missing read = elim (Option-cases (get m a)) [
    | inl gone ↦ absurd (let p : b ≡ true = missing ∙ (rw gone) in cc)
    | inr (w, e) ↦ e ∙ ap some (source w e)
  ]

  pub record AreValues (o : Operands) : Type 0 where
    pub op0 : IsValue o.op0
    pub op1 : IsValue o.op1
    pub dst : IsValue o.dst

  -- Each operand that fits its cell stands at its address.
  pub record StandIf (m : Memory) (a : OperandsAddresses) (o : Operands) : Type 0 where
    pub op0 : IsValue o.op0 → get m a.op0_addr ≡ some o.op0
    pub op1 : IsValue o.op1 → get m a.op1_addr ≡ some o.op1
    pub dst : IsValue o.dst → get m a.dst_addr ≡ some o.dst

  -- The operands stand at their addresses.
  pub record Stand (m : Memory) (a : OperandsAddresses) (o : Operands) : Type 0 where
    pub op0 : get m a.op0_addr ≡ some o.op0
    pub op1 : get m a.op1_addr ≡ some o.op1
    pub dst : get m a.dst_addr ≡ some o.dst

module _ ⦃F : FeltOps⦄ ⦃H : HashOps⦄ where
  insert_deduced_operands-StandIf :
      (m m' : Memory) (o : Computed)
      → m.relocation_rules ≡ []
      → Sourced m o
      → insert_deduced_operands o.deduced o.operands o.addresses m ≡ ok m'
      → StandIf m' o.addresses o.operands
  unfolding insert_deduced_operands
  insert_deduced_operands-StandIf m m' o rules source h =
      let (d, a, v) : DeducedOperands × OperandsAddresses × Operands =
        (o.deduced, o.addresses, o.operands) in
      bind-ok-elim (insert_if d.op0 a.op0_addr v.op0 m) _ h λ m₁ e₁ h₁.
        bind-ok-elim (insert_if d.op1 a.op1_addr v.op1 m₁) _ h₁ λ m₂ e₂ h₂.
          let rules₁ = insert_if-rules _ _ _ m m₁ e₁ ∙ rules in
          let rules₂ = insert_if-rules _ _ _ m₁ m₂ e₂ ∙ rules₁ in
          let keep₁ = insert_if-Keeps d.op0 a.op0_addr v.op0 m m₁ e₁ in
          let keep₂ = insert_if-Keeps d.op1 a.op1_addr v.op1 m₁ m₂ e₂ in
          let keep₃ = insert_if-Keeps d.dst a.dst_addr v.dst m₂ m' h₂ in
          record {
            op0 = λ fits. keep₃ _ _ (
                keep₂ _ _ (
                  insert_if-stands _ a.op0_addr v.op0 m m₁ rules fits e₁
                    (there m a.op0_addr v.op0 d.op0 source.op0 source.missing_op0)));
            op1 = λ fits. keep₃ _ _ (
                insert_if-stands _ a.op1_addr v.op1 m₁ m₂ rules₁ fits e₂ (λ kept.
                  keep₁ _ _ (there m a.op1_addr v.op1 d.op1 source.op1 source.missing_op1 kept)));
            dst = λ fits. insert_if-stands _ a.dst_addr v.dst m₂ m' rules₂ fits h₂ (λ kept.
                keep₂ _ _
                  (keep₁ _ _ (there m a.dst_addr v.dst d.dst source.dst source.missing_dst kept)));
          }

  pub Executed-StandIf :
      (vm vm' : VirtualMachine) (i : Instruction) (x : Executed vm i vm')
      → vm.segments.memory.relocation_rules ≡ []
      → StandIf vm'.segments.memory x.computed.addresses x.computed.operands
  Executed-StandIf vm vm' i x rules =
      let o = x.computed in
      let s =
        insert_deduced_operands-StandIf vm.segments.memory x.memory o rules
          (compute_operands-Sourced vm i o x.operands_found) x.written in
      let marked = λ (r : Relocatable).
        ap (λ m. get m r) x.result_memory ∙ get-mark_operands o.addresses x.memory r in
      record {
        op0 = λ fits. marked o.addresses.op0_addr ∙ s.op0 fits;
        op1 = λ fits. marked o.addresses.op1_addr ∙ s.op1 fits;
        dst = λ fits. marked o.addresses.dst_addr ∙ s.dst fits;
      }

  -- After an instruction, in a memory without relocation rules, each of the operands that it was
  -- computed with stands in memory at its address, whether it was read there or deduced, if the
  -- operands fit their cells.
  pub run_instruction-Stand :
      (vm vm' : VirtualMachine) (i : Instruction) (o : Computed)
      → vm.segments.memory.relocation_rules ≡ []
      → AreValues o.operands
      → compute_operands vm i ≡ ok o
      → run_instruction vm i ≡ ok vm'
      → Stand vm'.segments.memory o.addresses o.operands
  run_instruction-Stand vm vm' i o rules values h run =
      let x = run_instruction-Executed vm vm' i run in
      let p : o ≡ x.computed = ok-injective (sym h ∙ x.operands_found) in
      let s =
        subst (λ q. StandIf vm'.segments.memory q.addresses q.operands) (sym p)
          (Executed-StandIf vm vm' i x rules) in
      record { op0 = s.op0 values.op0; op1 = s.op1 values.op1; dst = s.dst values.dst }
