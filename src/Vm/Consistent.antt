-- ===== src/Vm/Consistent.antt =====
-- The operands and the result that vm/src/vm/vm_core.rs computes for an instruction satisfy it.
use cairo_vm.Base.{◌≡◌, refl, sym, ap, ◌∙◌, Option, none, some, List, subst}
use cairo_vm.Base.Result.{ok, ok-injective, ok_or, bind-ok-elim, ok_or-eq-ok}
use cairo_vm.Types.Felt.{FeltOps}
use cairo_vm.Types.Errors.{VirtualMachineError}
use cairo_vm.Types.Value.{Relocatable, MaybeRelocatable, IsValue}
use cairo_vm.Types.Instruction.{Instruction}
use cairo_vm.RunContext.{compute_dst_addr, compute_op0_addr, compute_op1_addr}
use cairo_vm.Memory.Store.{get}
use cairo_vm.Memory.Valid.{IsValid, get-IsValue}
use cairo_vm.Builtins.Runner.{HashOps, BuiltinRunner}
use cairo_vm.Builtins.Deduce.{deduce_memory_cell}
use cairo_vm.Vm.State.{VirtualMachine}
use cairo_vm.Vm.Operands.{
  Found, Computed, compute_operands, compute_op0_deductions, compute_op1_deductions, op0_after,
  op1_after, or_res, find_op0, find_op1, find_res, find_dst, compute_res, deduce_op0, deduce_op1,
  Deduced,
}
use cairo_vm.Vm.Executed.{find_op1-some, find_dst-some}
use cairo_vm.Vm.Deduction.{Divides}
use cairo_vm.Vm.Agrees.{
  Fits, Divides-cong, Divisible, DivisibleBy, Agrees, deduce_op0-Agrees, deduce_op1-Agrees,
}

module _ ⦃F : FeltOps⦄ ⦃H : HashOps⦄ where
  op0_after-Agrees :
      (vm : VirtualMachine) (a : Relocatable) (i : Instruction) (d p cell : Option MaybeRelocatable)
      (bs bs' : List BuiltinRunner) (op0 res : MaybeRelocatable)
      → Divisible d p
      → Fits d
      → Fits p
      → op0_after vm a i d p cell bs ≡ ok (op0, some res, bs')
      → (op1 : MaybeRelocatable) × (p ≡ some op1) × Agrees i op0 op1 (some res)
  op0_after-Agrees vm a i d p (some v) bs bs' op0 res law fd fp h = cc h
  op0_after-Agrees vm a i d p none bs bs' op0 res law fd fp h =
      bind-ok-elim (deduce_op0 vm.run_context i d p) _ h λ f e h₁.
        bind-ok-elim (ok_or f.0 (VirtualMachineError.failed_to_compute_op0 a)) _ h₁ λ v e₁ h₂.
          deduce_op0-Agrees vm.run_context i d p op0 res law fd fp
            (e ∙ ap ok (pair_eq f v op0 res (ok_or-eq-ok _ _ e₁) (cc h₂) (cc h₂)))
    where
      pair_eq :
          (f : Deduced) (v op0 res : MaybeRelocatable)
          → f.0 ≡ some v
          → v ≡ op0
          → f.1 ≡ some res
          → f ≡ (some op0, some res)
      pair_eq (x, y) v op0 res p q r = cc

  find_op0-Agrees :
      (vm : VirtualMachine) (a : Relocatable) (i : Instruction) (d p q : Option MaybeRelocatable)
      (bs : List BuiltinRunner) (op0 res : MaybeRelocatable)
      → Divisible d p
      → Fits d
      → Fits p
      → find_op0 vm a i d p q ≡ ok (op0, some res, bs)
      → (op1 : MaybeRelocatable) × (p ≡ some op1) × Agrees i op0 op1 (some res)
  unfolding compute_op0_deductions
  find_op0-Agrees vm a i d p (some v) bs op0 res law fd fp h = cc h
  find_op0-Agrees vm a i d p none bs op0 res law fd fp h =
      bind-ok-elim (deduce_memory_cell vm.builtin_runners a vm.segments.memory) _ h
        λ f e h₁. op0_after-Agrees vm a i d p f.0 f.1 bs op0 res law fd fp h₁

  op1_after-Agrees :
      (a : Relocatable) (i : Instruction) (d cell : Option MaybeRelocatable)
      (op0 : MaybeRelocatable) (bs : List BuiltinRunner) (f : Found) (x : MaybeRelocatable)
      → DivisibleBy d op0
      → Fits d
      → IsValue op0
      → op1_after a i none d op0 cell bs ≡ ok f
      → f.1 ≡ some x
      → Agrees i op0 f.0 (some x)
  op1_after-Agrees a i d (some v) op0 bs f x law fd h0 h e =
      absurd (let p : none ≡ f.1 = ap (λ y. y.1) (ok-injective h) in cc (p, e))
  op1_after-Agrees a i d none op0 bs f x law fd h0 h e =
      bind-ok-elim (deduce_op1 i d (some op0)) _ h λ g e₁ h₁.
        bind-ok-elim (ok_or g.0 (VirtualMachineError.failed_to_compute_op1 a)) _ h₁ λ v e₂ h₂.
          let p : (v, or_res none g.1, bs) ≡ f = ok-injective h₂ in
          let known : g.1 ≡ some x = ap (λ y. y.1) p ∙ e in
          let found : g.0 ≡ some f.0 = ok_or-eq-ok _ _ e₂ ∙ ap (λ y. some y.0) p in
          deduce_op1-Agrees i d op0 f.0 x law fd h0 (e₁ ∙ ap ok (pair_of g found known))
    where
      pair_of :
          (g : Deduced) {v x : MaybeRelocatable}
          → g.0 ≡ some v
          → g.1 ≡ some x
          → g ≡ (some v, some x)
      pair_of (y, z) p q = cc

  -- What is known of the result after `op0`: then `op1` was read.
  abbrev Known :
      Instruction → MaybeRelocatable → Option MaybeRelocatable → Option MaybeRelocatable → Type 0
  Known i op0 q res₀ =
      (r : MaybeRelocatable)
      → res₀ ≡ some r
      → (op1 : MaybeRelocatable) × (q ≡ some op1) × Agrees i op0 op1 (some r)

  find_op1-Agrees :
      (vm : VirtualMachine) (bs : List BuiltinRunner) (a : Relocatable) (i : Instruction)
      (res₀ d q : Option MaybeRelocatable) (op0 : MaybeRelocatable) (f : Found)
      (x : MaybeRelocatable)
      → DivisibleBy d op0
      → Fits d
      → IsValue op0
      → Known i op0 q res₀
      → find_op1 vm bs a i res₀ d op0 q ≡ ok f
      → f.1 ≡ some x
      → Agrees i op0 f.0 (some x)
  unfolding compute_op1_deductions
  find_op1-Agrees vm bs a i res₀ d (some v) op0 f x law fd h0 known h e =
      let p : (v, res₀, bs) ≡ f = ok-injective h in
      let (op1, same, agrees) = known x (ap (λ y. y.1) p ∙ e) in
      let q : op1 ≡ f.0 = sym (cc same) ∙ ap (λ y. y.0) p in rw (← q) agrees
  find_op1-Agrees vm bs a i (some r) d none op0 f x law fd h0 known h e =
      absurd (let (op1, same, _) = known r refl in cc same)
  find_op1-Agrees vm bs a i none d none op0 f x law fd h0 known h e =
      bind-ok-elim (deduce_memory_cell bs a vm.segments.memory) _ h
        λ g e₁ h₁. op1_after-Agrees a i d g.0 op0 g.1 f x law fd h0 h₁ e

  find_res-Agrees :
      (i : Instruction) (op0 op1 : MaybeRelocatable) (r res : Option MaybeRelocatable)
      → ((x : MaybeRelocatable) → r ≡ some x → Agrees i op0 op1 (some x))
      → find_res i op0 op1 r ≡ ok res
      → Agrees i op0 op1 res
  find_res-Agrees i op0 op1 none res agrees h = h
  find_res-Agrees i op0 op1 (some x) res agrees h = rw (← ok-injective h) (agrees x refl)

  -- The result that `compute_operands` returns is the one that the instruction computes from the
  -- operands that it returns, whichever of them were read from memory and whichever were deduced
  -- from the others. The memory is valid, the operand `op0` fits its cell, and division of `dst`
  -- by the operands undoes multiplication.
  pub compute_operands-compute_res :
      (vm : VirtualMachine) (i : Instruction) (o : Computed)
      → Divides o.operands.dst o.operands.op0
      → Divides o.operands.dst o.operands.op1
      → IsValid vm.segments.memory
      → IsValue o.operands.op0
      → compute_operands vm i ≡ ok o
      → compute_res i o.operands.op0 o.operands.op1 ≡ ok o.operands.res
  unfolding compute_operands
  compute_operands-compute_res vm i o law₀ law₁ valid h0 h =
      let m = vm.segments.memory in
      let fits : (r : Relocatable) → Fits (get m r) = λ r w e. get-IsValue m r w valid e in
      bind-ok-elim (compute_dst_addr vm.run_context i) _ h λ dst_addr e₁ h₁.
        bind-ok-elim (compute_op0_addr vm.run_context i) _ h₁ λ op0_addr e₂ h₂.
          bind-ok-elim (compute_op1_addr vm.run_context i (get m op0_addr)) _ h₂ λ op1_addr e₃ h₃.
            bind-ok-elim (find_op0 vm op0_addr i (get m dst_addr) (get m op1_addr) (get m op0_addr))
              _ h₃
              λ f₀ e₄ h₄.
                bind-ok-elim
                  (find_op1 vm f₀.2 op1_addr i f₀.1 (get m dst_addr) f₀.0 (get m op1_addr)) _ h₄
                  λ f₁ e₅ h₅. bind-ok-elim (find_res i f₀.0 f₁.0 f₁.1) _ h₅ λ res e₆ h₆.
                    bind-ok-elim (find_dst vm.run_context i res (get m dst_addr)) _ h₆ λ dst e₇ h₇.
                      let p = ok-injective h₇ in
                      let v0 : IsValue f₀.0 = subst IsValue (sym (ap (λ y. y.operands.op0) p)) h0 in
                      let dst_is = λ (a : MaybeRelocatable) (e : get m dst_addr ≡ some a).
                        find_dst-some vm.run_context i res (get m dst_addr) a dst e₇ e
                        ∙ ap (λ y. y.operands.dst) p in
                      let op1_is = λ (b : MaybeRelocatable) (e : get m op1_addr ≡ some b).
                        find_op1-some vm f₀.2 op1_addr i f₀.1 (get m dst_addr) f₀.0 (get m op1_addr)
                          b f₁ e₅ e
                        ∙ ap (λ y. y.operands.op1) p in
                      let read_dst : DivisibleBy (get m dst_addr) f₀.0 =
                        λ a e. Divides-cong (dst_is a e) (ap (λ y. y.operands.op0) p) law₀ in
                      let read_both : Divisible (get m dst_addr) (get m op1_addr) =
                        λ a b e f. Divides-cong (dst_is a e) (op1_is b f) law₁ in
                      let known : Known i f₀.0 (get m op1_addr) f₀.1 = λ r e.
                        find_op0-Agrees vm op0_addr i (get m dst_addr) (get m op1_addr)
                          (get m op0_addr) f₀.2 f₀.0 r read_both (fits dst_addr) (fits op1_addr)
                          (e₄ ∙ ap (λ y. ok (f₀.0, y, f₀.2)) e) in
                      subst (λ y. compute_res i y.operands.op0 y.operands.op1 ≡ ok y.operands.res) p
                        (find_res-Agrees i f₀.0 f₁.0 f₁.1 res
                          (λ x e.
                            find_op1-Agrees vm f₀.2 op1_addr i f₀.1 (get m dst_addr)
                              (get m op1_addr) f₀.0 f₁ x read_dst (fits dst_addr) v0 known e₅ e)
                          e₆)
