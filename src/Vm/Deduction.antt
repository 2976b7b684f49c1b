-- ===== src/Vm/Deduction.antt =====
-- The deductions of vm/src/vm/vm_core.rs agree with the computation of the result.
use cairo_vm.Base.{◌≡◌, ◌≢◌, sym, ◌∙◌, some, arith, inl, inr}
use cairo_vm.Base.Result.{ok, map_err, bind-ok-elim, map_err-eq-ok, Result-cases}
use cairo_vm.Types.Felt.{Felt, FeltOps}
use cairo_vm.Types.Value.{MaybeRelocatable, relocatable_value, int, IsValue}
use cairo_vm.Types.Errors.{VirtualMachineError}
use cairo_vm.Types.Relocatable.{add, sub, add_offset}
use cairo_vm.Types.Relocatable.Laws.{add-sub}
use cairo_vm.Types.Instruction.{Instruction, Res, Opcode, size}
use cairo_vm.RunContext.{RunContext}
use cairo_vm.Vm.Operands.{
  deduce_op0, deduce_op0_by, op0_of, deduce_op1, deduce_op1_by, op1_of, compute_res, res_by,
}

module _ ⦃F : FeltOps⦄ where
  -- What the crate documents of a division: multiplied by the divisor it gives the dividend.
  abbrev pub Divides : MaybeRelocatable → MaybeRelocatable → Type 0
  Divides (int a) (int b) = b ≢ 0 → F.mul (F.field_div a b) b ≡ a
  Divides _ _ = Unit

  add_comm-ok : (v w d : MaybeRelocatable) → add v w ≡ ok d → add w v ≡ ok d
  unfolding add
  add_comm-ok (int x) (int y) d h = ground (arith, F.add_lem x y, F.add_lem y x)
  add_comm-ok (int x) (relocatable_value r) d h = h
  add_comm-ok (relocatable_value r) (int x) d h = h
  add_comm-ok (relocatable_value r) (relocatable_value s) d h = cc

  mul_comm-felt : (a b : Felt) → F.mul a b ≡ F.mul b a
  mul_comm-felt a b = F.mul_lem a b ∙ (grind arith) ∙ sym (F.mul_lem b a)

  op0_of-res_by :
      (r : Res) (dst op1 op0 res : MaybeRelocatable)
      → IsValue dst
      → IsValue op1
      → Divides dst op1
      → op0_of r (some dst) (some op1) ≡ ok (some op0, some res)
      → res_by r op0 op1 ≡ ok (some res)
  op0_of-res_by Res.op1 dst op1 op0 res hd h1 hq h = cc
  op0_of-res_by Res.unconstrained dst op1 op0 res hd h1 hq h = cc
  op0_of-res_by Res.add dst op1 op0 res hd h1 hq h =
      bind-ok-elim (map_err VirtualMachineError.math (sub dst op1)) _ h λ v e h'.
        let p : v ≡ op0 = cc h' in
        let q : dst ≡ res = cc h' in rw (← p, ← q, add-sub dst op1 v hd h1 (map_err-eq-ok _ _ e))
  op0_of-res_by Res.mul (int a) (int b) op0 res hd h1 hq h = ground arith
  op0_of-res_by Res.mul (int a) (relocatable_value r) op0 res hd h1 hq h = cc
  op0_of-res_by Res.mul (relocatable_value r) op1 op0 res hd h1 hq h = cc

  op1_of-res_by :
      (r : Res) (dst op0 op1 res : MaybeRelocatable)
      → IsValue dst
      → IsValue op0
      → Divides dst op0
      → op1_of r (some dst) (some op0) ≡ ok (some op1, some res)
      → res_by r op0 op1 ≡ ok (some res)
  op1_of-res_by Res.op1 dst op0 op1 res hd h0 hq h = ground arith
  op1_of-res_by Res.unconstrained dst op0 op1 res hd h0 hq h = cc
  op1_of-res_by Res.add dst op0 op1 res hd h0 hq h = elim (Result-cases (sub dst op0)) [
    | inl (v, e) ↦
        let k : ok (some v, some dst) ≡ ok (some op1, some res) = sym (rw e) ∙ h in
        let p : v ≡ op1 = cc k in
        let q : dst ≡ res = cc k in rw (← p, ← q, add_comm-ok v op0 dst (add-sub dst op0 v hd h0 e))
    | inr (x, e) ↦ ground arith
  ]
  op1_of-res_by Res.mul (int a) (int b) op1 res hd h0 hq h =
      ground (arith, mul_comm-felt b (F.field_div a b))
  op1_of-res_by Res.mul (int a) (relocatable_value r) op1 res hd h0 hq h = cc
  op1_of-res_by Res.mul (relocatable_value r) op0 op1 res hd h0 hq h = cc

  deduce_op0_by-res_by :
      (o : Opcode) (c : RunContext) (i : Instruction) (dst op1 op0 res : MaybeRelocatable)
      → IsValue dst
      → IsValue op1
      → Divides dst op1
      → deduce_op0_by o c i (some dst) (some op1) ≡ ok (some op0, some res)
      → res_by i.res op0 op1 ≡ ok (some res)
  unfolding deduce_op0_by
  deduce_op0_by-res_by Opcode.call c i dst op1 op0 res hd h1 hq h =
      bind-ok-elim (map_err VirtualMachineError.math (add_offset c.pc (size i))) _ h λ a _ e'. cc e'
  deduce_op0_by-res_by Opcode.assert_eq c i dst op1 op0 res hd h1 hq h =
      op0_of-res_by i.res dst op1 op0 res hd h1 hq h
  deduce_op0_by-res_by Opcode.nop c i dst op1 op0 res hd h1 hq h = cc h
  deduce_op0_by-res_by Opcode.ret c i dst op1 op0 res hd h1 hq h = cc h

  deduce_op1_by-res_by :
      (o : Opcode) (i : Instruction) (dst op0 op1 res : MaybeRelocatable)
      → IsValue dst
      → IsValue op0
      → Divides dst op0
      → deduce_op1_by o i (some dst) (some op0) ≡ ok (some op1, some res)
      → res_by i.res op0 op1 ≡ ok (some res)
  unfolding deduce_op1_by
  deduce_op1_by-res_by Opcode.assert_eq i dst op0 op1 res hd h0 hq h =
      op1_of-res_by i.res dst op0 op1 res hd h0 hq h
  deduce_op1_by-res_by Opcode.call i dst op0 op1 res hd h0 hq h = cc h
  deduce_op1_by-res_by Opcode.nop i dst op0 op1 res hd h0 hq h = cc h
  deduce_op1_by-res_by Opcode.ret i dst op0 op1 res hd h0 hq h = cc h

  -- An operand `op0` that `deduce_op0` finds together with a result, from a `dst` and an `op1`
  -- that fit their cells, makes `compute_res` give that result: what is deduced satisfies the
  -- instruction. Division by `op1` is taken to undo multiplication by it.
  pub deduce_op0-compute_res :
      (c : RunContext) (i : Instruction) (dst op1 op0 res : MaybeRelocatable)
      → IsValue dst
      → IsValue op1
      → Divides dst op1
      → deduce_op0 c i (some dst) (some op1) ≡ ok (some op0, some res)
      → compute_res i op0 op1 ≡ ok (some res)
  unfolding deduce_op0 compute_res
  deduce_op0-compute_res c i = deduce_op0_by-res_by i.opcode c i

  -- An operand `op1` that `deduce_op1` finds together with a result, from a `dst` and an `op0`
  -- that fit their cells, makes `compute_res` give that result. Division by `op0` is taken to
  -- undo multiplication by it.
  pub deduce_op1-compute_res :
      (i : Instruction) (dst op0 op1 res : MaybeRelocatable)
      → IsValue dst
      → IsValue op0
      → Divides dst op0
      → deduce_op1 i (some dst) (some op0) ≡ ok (some op1, some res)
      → compute_res i op0 op1 ≡ ok (some res)
  unfolding deduce_op1 compute_res
  deduce_op1-compute_res i = deduce_op1_by-res_by i.opcode i
