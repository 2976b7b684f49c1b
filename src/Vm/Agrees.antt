-- ===== src/Vm/Agrees.antt =====
-- The deductions of vm/src/vm/vm_core.rs agree with the instruction, for operands that may be
-- missing.
use cairo_vm.Base.{◌≡◌, refl, sym, Option, none, some, subst}
use cairo_vm.Base.Result.{ok, map_err, bind-ok-elim}
use cairo_vm.Types.Felt.{FeltOps}
use cairo_vm.Types.Errors.{VirtualMachineError}
use cairo_vm.Types.Value.{MaybeRelocatable, IsValue}
use cairo_vm.Types.Relocatable.{add_offset}
use cairo_vm.Types.Instruction.{Instruction, Opcode, Res, size}
use cairo_vm.RunContext.{RunContext}
use cairo_vm.Vm.Operands.{
  compute_res, deduce_op0, deduce_op0_by, deduce_op1, deduce_op1_by, op0_of, op1_of,
}
use cairo_vm.Vm.Deduction.{Divides, deduce_op0-compute_res, deduce_op1-compute_res}

-- A read value, if there is one, fits its cell.
abbrev pub Fits : Option MaybeRelocatable → Type 0
Fits v = (w : MaybeRelocatable) → v ≡ some w → IsValue w

module _ ⦃F : FeltOps⦄ where
  pub Divides-cong : {a b a' b' : MaybeRelocatable} → a ≡ a' → b ≡ b' → Divides a' b' → Divides a b
  Divides-cong {a} {b} {a'} {b'} p q h =
      subst (λ x. Divides x b) (sym p) (subst (λ y. Divides a' y) (sym q) h)

  -- Division undoes multiplication for the values that were read, where there are any.
  abbrev pub Divisible : Option MaybeRelocatable → Option MaybeRelocatable → Type 0
  Divisible d p = (a b : MaybeRelocatable) → d ≡ some a → p ≡ some b → Divides a b

  abbrev pub DivisibleBy : Option MaybeRelocatable → MaybeRelocatable → Type 0
  DivisibleBy d b = (a : MaybeRelocatable) → d ≡ some a → Divides a b

  -- The result is what the instruction computes from its operands.
  abbrev pub Agrees :
      Instruction → MaybeRelocatable → MaybeRelocatable → Option MaybeRelocatable → Type 0
  Agrees i op0 op1 res = compute_res i op0 op1 ≡ ok res

  op0_of-read :
      (r : Res) (d p : Option MaybeRelocatable) (op0 res : MaybeRelocatable)
      → op0_of r d p ≡ ok (some op0, some res)
      → (dst : MaybeRelocatable) × (op1 : MaybeRelocatable) × (d ≡ some dst) × (p ≡ some op1)
  op0_of-read Res.add (some d) (some p) op0 res h = (d, p, refl, refl)
  op0_of-read Res.mul (some d) (some p) op0 res h = (d, p, refl, refl)
  op0_of-read Res.add (some d) none op0 res h = cc h
  op0_of-read Res.add none p op0 res h = cc h
  op0_of-read Res.mul (some d) none op0 res h = cc h
  op0_of-read Res.mul none p op0 res h = cc h
  op0_of-read Res.op1 d p op0 res h = cc h
  op0_of-read Res.unconstrained d p op0 res h = cc h

  deduce_op0_by-read :
      (o : Opcode) (c : RunContext) (i : Instruction) (d p : Option MaybeRelocatable)
      (op0 res : MaybeRelocatable)
      → deduce_op0_by o c i d p ≡ ok (some op0, some res)
      → (dst : MaybeRelocatable) × (op1 : MaybeRelocatable) × (d ≡ some dst) × (p ≡ some op1)
  unfolding deduce_op0_by
  deduce_op0_by-read Opcode.assert_eq c i d p op0 res h = op0_of-read i.res d p op0 res h
  deduce_op0_by-read Opcode.call c i d p op0 res h =
      absurd (
        bind-ok-elim (map_err VirtualMachineError.math (add_offset c.pc (size i))) _ h
          λ a _ e. cc e)
  deduce_op0_by-read Opcode.nop c i d p op0 res h = cc h
  deduce_op0_by-read Opcode.ret c i d p op0 res h = cc h

  op1_of-read :
      (r : Res) (d : Option MaybeRelocatable) (op0 op1 res : MaybeRelocatable)
      → op1_of r d (some op0) ≡ ok (some op1, some res)
      → (dst : MaybeRelocatable) × (d ≡ some dst)
  op1_of-read r (some d) op0 op1 res h = (d, refl)
  op1_of-read Res.add none op0 op1 res h = cc h
  op1_of-read Res.mul none op0 op1 res h = cc h
  op1_of-read Res.op1 none op0 op1 res h = cc h
  op1_of-read Res.unconstrained none op0 op1 res h = cc h

  deduce_op1_by-read :
      (o : Opcode) (i : Instruction) (d : Option MaybeRelocatable) (op0 op1 res : MaybeRelocatable)
      → deduce_op1_by o i d (some op0) ≡ ok (some op1, some res)
      → (dst : MaybeRelocatable) × (d ≡ some dst)
  unfolding deduce_op1_by
  deduce_op1_by-read Opcode.assert_eq i d op0 op1 res h = op1_of-read i.res d op0 op1 res h
  deduce_op1_by-read Opcode.call i d op0 op1 res h = cc h
  deduce_op1_by-read Opcode.nop i d op0 op1 res h = cc h
  deduce_op1_by-read Opcode.ret i d op0 op1 res h = cc h

  pub deduce_op0-Agrees :
      (c : RunContext) (i : Instruction) (d p : Option MaybeRelocatable)
      (op0 res : MaybeRelocatable)
      → Divisible d p
      → Fits d
      → Fits p
      → deduce_op0 c i d p ≡ ok (some op0, some res)
      → (op1 : MaybeRelocatable) × (p ≡ some op1) × Agrees i op0 op1 (some res)
  unfolding deduce_op0
  deduce_op0-Agrees c i d p op0 res law fd fp h =
      let (dst, op1, e, f) = deduce_op0_by-read i.opcode c i d p op0 res h in
      (
        op1,
        f,
        deduce_op0-compute_res c i dst op1 op0 res (fd dst e) (fp op1 f) (law dst op1 e f)
            (rw (e, f) at h),
      )

  pub deduce_op1-Agrees :
      (i : Instruction) (d : Option MaybeRelocatable) (op0 op1 res : MaybeRelocatable)
      → DivisibleBy d op0
      → Fits d
      → IsValue op0
      → deduce_op1 i d (some op0) ≡ ok (some op1, some res)
      → Agrees i op0 op1 (some res)
  unfolding deduce_op1
  deduce_op1-Agrees i d op0 op1 res law fd h0 h =
      let (dst, e) = deduce_op1_by-read i.opcode i d op0 op1 res h in
      deduce_op1-compute_res i dst op0 op1 res (fd dst e) h0 (law dst e) (rw e at h)
