-- ===== src/Vm/Call.antt =====
-- The opcodes of vm/src/vm/vm_core.rs: what `assert_eq`, `call` and `ret` establish.
use cairo_vm.Base.{ℕ, ◌≡◌, refl, sym, ap, ◌∙◌, Bool, true, false, Option, none, some, arith}
use cairo_vm.Base.Result.{ok, ok-injective, map_err, bind-ok-elim, map_err-eq-ok, guard}
use cairo_vm.Types.Felt.{FeltOps}
use cairo_vm.Types.Errors.{VirtualMachineError}
use cairo_vm.Types.Value.{Relocatable, MaybeRelocatable, relocatable_value, eqb, eqb_iff}
use cairo_vm.Types.Relocatable.{add_offset}
use cairo_vm.Types.Instruction.{Instruction, Opcode, ApUpdate, PcUpdate, size}
use cairo_vm.RunContext.{RunContext, get_fp}
use cairo_vm.Vm.State.{Operands}
use cairo_vm.Vm.Registers.{
  update_registers, update_fp, update_ap, update_pc, next_fp, next_ap, next_pc,
}
use cairo_vm.Vm.Step.{opcode_assertions, assert_eq_check}

guard-eq-ok : {E : Type 0} (b : Bool) (e : E) {t : Unit {0}} → guard b e ≡ ok t → b ≡ true
guard-eq-ok true e h = refl
guard-eq-ok false e h = cc h

assert_eq_check-eq-ok :
    (dst : MaybeRelocatable) (res : Option MaybeRelocatable)
    → assert_eq_check dst res ≡ ok tt
    → res ≡ some dst
assert_eq_check-eq-ok dst none h = cc h
assert_eq_check-eq-ok dst (some res) h = ground (arith, eqb_iff res dst)

pub opcode_assertions-assert_eq :
    (c : RunContext) (i : Instruction) (o : Operands)
    → i.opcode ≡ Opcode.assert_eq
    → opcode_assertions c i o ≡ ok tt
    → o.res ≡ some o.dst
unfolding opcode_assertions
opcode_assertions-assert_eq c i o e h = assert_eq_check-eq-ok o.dst o.res (rw e at h)

-- The frame that a call leaves: the return address and the caller's frame pointer.
pub record Frame (c : RunContext) (i : Instruction) (o : Operands) : Type 0 where
  pub return_pc : Relocatable
  pub next : add_offset c.pc (size i) ≡ ok return_pc
  pub op0 : o.op0 ≡ relocatable_value return_pc
  pub dst : o.dst ≡ relocatable_value (get_fp c)

pub opcode_assertions-call :
    (c : RunContext) (i : Instruction) (o : Operands)
    → i.opcode ≡ Opcode.call
    → opcode_assertions c i o ≡ ok tt
    → Frame c i o
unfolding opcode_assertions
opcode_assertions-call c i o e h =
    bind-ok-elim (map_err VirtualMachineError.math (add_offset c.pc (size i))) _ (rw e at h)
      λ pc e₁ h₁. bind-ok-elim (guard (eqb o.op0 (relocatable_value pc)) _) _ h₁ λ t e₂ h₂. record {
        return_pc = pc;
        next = map_err-eq-ok _ _ e₁;
        op0 = (eqb_iff _ _).0 (guard-eq-ok _ _ e₂);
        dst = sym ((eqb_iff _ _).0 (guard-eq-ok _ _ h₂));
      }

module _ ⦃F : FeltOps⦄ where
  -- How each register moves.
  pub record Moved (i : Instruction) (o : Operands) (c c' : RunContext) : Type 0 where
    pub fp : next_fp i.fp_update c o ≡ ok c'.fp
    pub ap : next_ap i.ap_update c o ≡ ok c'.ap
    pub pc : next_pc i.pc_update i c o ≡ ok c'.pc

  next_ap-fp :
      (u : ApUpdate) (c : RunContext) (o : Operands) (n : ℕ)
      → next_ap u (record c { fp = n }) o ≡ next_ap u c o
  next_ap-fp ApUpdate.regular c o n = refl
  next_ap-fp ApUpdate.add c o n = refl
  next_ap-fp ApUpdate.add1 c o n = refl
  next_ap-fp ApUpdate.add2 c o n = refl

  next_pc-fp_ap :
      (u : PcUpdate) (i : Instruction) (c : RunContext) (o : Operands) (n k : ℕ)
      → next_pc u i (record c { fp = n; ap = k }) o ≡ next_pc u i c o
  next_pc-fp_ap PcUpdate.regular i c o n k = refl
  next_pc-fp_ap PcUpdate.jump i c o n k = refl
  next_pc-fp_ap PcUpdate.jump_rel i c o n k = refl
  next_pc-fp_ap PcUpdate.jnz i c o n k = refl

  pub update_registers-Moved :
      (i : Instruction) (o : Operands) (c c' : RunContext)
      → update_registers i o c ≡ ok c'
      → Moved i o c c'
  unfolding update_registers update_fp update_ap update_pc
  update_registers-Moved i o c c' h = bind-ok-elim (update_fp i o c) _ h λ c₁ e₁ h₁.
      bind-ok-elim (next_fp i.fp_update c o) _ e₁ λ fp f₁ g₁.
        let p₁ = ok-injective g₁ in
        bind-ok-elim (update_ap i o c₁) _ h₁ λ c₂ e₂ h₂.
          bind-ok-elim (next_ap i.ap_update c₁ o) _ e₂ λ new_ap f₂ g₂.
            let p₂ = ok-injective g₂ in
            bind-ok-elim (next_pc i.pc_update i c₂ o) _ h₂ λ pc f₃ g₃.
              let p₃ = ok-injective g₃ in
              let q₂ : c₂ ≡ record c { fp = fp; ap = new_ap } =
                sym p₂
                ∙ ap {A = RunContext} {B = RunContext} (λ x. record x { ap = new_ap }) (sym p₁) in
              let q₃ : record c { fp = fp; ap = new_ap; pc = pc } ≡ c' =
                ap {A = RunContext} {B = RunContext} (λ x. record x { pc = pc }) (sym q₂) ∙ p₃ in
              record {
                fp = f₁ ∙ ap (λ x. ok x.fp) q₃;
                ap =
                    sym (next_ap-fp i.ap_update c o fp)
                    ∙ ap (λ x. next_ap i.ap_update x o) p₁
                    ∙ f₂
                    ∙ ap (λ x. ok x.ap) q₃;
                pc =
                    sym (next_pc-fp_ap i.pc_update i c o fp new_ap)
                    ∙ ap (λ x. next_pc i.pc_update i x o) (sym q₂)
                    ∙ f₃
                    ∙ ap (λ x. ok x.pc) q₃;
              }
