-- ===== src/Vm/Operands.antt =====
-- vm/src/vm/vm_core.rs: the operands of an instruction, read from memory or deduced.
use cairo_vm.Base.{not, Option, none, some, List, ◌==◌, if◌then◌else◌, is_some}
use cairo_vm.Base.Result.{Result, ok, err, ◌>>=◌, map_err, ok_or, to_option}
use cairo_vm.Types.Felt.{FeltOps}
use cairo_vm.Types.Value.{Relocatable, MaybeRelocatable, relocatable_value, int}
use cairo_vm.Types.Errors.{VirtualMachineError}
use cairo_vm.Types.Relocatable.{add_offset, add, sub}
use cairo_vm.Types.Instruction.{Instruction, Res, Opcode, size}
use cairo_vm.RunContext.{RunContext, get_fp, compute_dst_addr, compute_op0_addr, compute_op1_addr}
use cairo_vm.Memory.Store.{get}
use cairo_vm.Builtins.Runner.{HashOps, BuiltinRunner}
use cairo_vm.Builtins.Deduce.{deduce_memory_cell}
use cairo_vm.Vm.State.{VirtualMachine, Operands, OperandsAddresses, DeducedOperands}

-- A deduced operand, and the result if it is known with it.
abbrev pub Deduced : Type 0
Deduced = Option MaybeRelocatable × Option MaybeRelocatable

module _ ⦃F : FeltOps⦄ where
  abbrev pub quotient : MaybeRelocatable → MaybeRelocatable → Result VirtualMachineError Deduced
  quotient (int dst) (int op) =
      if op == 0 then ok (none, none) else ok (some (int (F.field_div dst op)), some (int dst))
  quotient _ _ = ok (none, none)

  abbrev pub op0_of :
      Res → Option MaybeRelocatable → Option MaybeRelocatable → Result VirtualMachineError Deduced
  op0_of Res.add (some dst) (some op1) = do
    v ← map_err VirtualMachineError.math (sub dst op1)
    ok (some v, some dst)
  op0_of Res.mul (some dst) (some op1) = quotient dst op1
  op0_of _ _ _ = ok (none, none)

  unfoldable pub deduce_op0_by :
      Opcode
      → RunContext
      → Instruction
      → Option MaybeRelocatable
      → Option MaybeRelocatable
      → Result VirtualMachineError Deduced
  unfolding sub add_offset size
  deduce_op0_by Opcode.call c i dst op1 = do
    pc ← map_err VirtualMachineError.math (add_offset c.pc (size i))
    ok (some (relocatable_value pc), none)
  deduce_op0_by Opcode.assert_eq c i dst op1 = op0_of i.res dst op1
  deduce_op0_by _ c i dst op1 = ok (none, none)

  -- `deduce_op0`: from `dst` and `op1`, or the return address of a call.
  unfoldable pub deduce_op0 :
      RunContext
      → Instruction
      → Option MaybeRelocatable
      → Option MaybeRelocatable
      → Result VirtualMachineError Deduced
  unfolding deduce_op0_by
  deduce_op0 c i dst op1 = deduce_op0_by i.opcode c i dst op1

  abbrev pub op1_of :
      Res → Option MaybeRelocatable → Option MaybeRelocatable → Result VirtualMachineError Deduced
  op1_of Res.op1 dst op0 = ok (dst, dst)
  op1_of Res.add (some dst) (some op0) = ok (to_option (sub dst op0), some dst)
  op1_of Res.add dst _ = ok (none, dst)
  op1_of Res.mul (some dst) (some op0) = quotient dst op0
  op1_of _ _ _ = ok (none, none)

  unfoldable pub deduce_op1_by :
      Opcode
      → Instruction
      → Option MaybeRelocatable
      → Option MaybeRelocatable
      → Result VirtualMachineError Deduced
  unfolding sub
  deduce_op1_by Opcode.assert_eq i dst op0 = op1_of i.res dst op0
  deduce_op1_by _ i dst op0 = ok (none, none)

  -- `deduce_op1`: from `dst` and `op0`; here a difference that is not defined is no error.
  unfoldable pub deduce_op1 :
      Instruction
      → Option MaybeRelocatable
      → Option MaybeRelocatable
      → Result VirtualMachineError Deduced
  unfolding deduce_op1_by
  deduce_op1 i dst op0 = deduce_op1_by i.opcode i dst op0

  abbrev pub product :
      MaybeRelocatable → MaybeRelocatable → Result VirtualMachineError (Option MaybeRelocatable)
  product (int x) (int y) = ok (some (int (F.mul x y)))
  product v w = err (VirtualMachineError.compute_res_relocatable_mul v w)

  abbrev pub res_by :
      Res
      → MaybeRelocatable
      → MaybeRelocatable
      → Result VirtualMachineError (Option MaybeRelocatable)
  res_by Res.op1 op0 op1 = ok (some op1)
  res_by Res.add op0 op1 = do r ← map_err VirtualMachineError.math (add op0 op1); ok (some r)
  res_by Res.mul op0 op1 = product op0 op1
  res_by Res.unconstrained op0 op1 = ok none

  unfoldable pub compute_res :
      Instruction
      → MaybeRelocatable
      → MaybeRelocatable
      → Result VirtualMachineError (Option MaybeRelocatable)
  unfolding add
  compute_res i op0 op1 = res_by i.res op0 op1

  abbrev pub dst_by :
      Opcode → RunContext → Option MaybeRelocatable → Result VirtualMachineError MaybeRelocatable
  dst_by Opcode.assert_eq c (some res) = ok res
  dst_by Opcode.call c res = ok (relocatable_value (get_fp c))
  dst_by _ c res = err VirtualMachineError.no_dst

  unfoldable pub deduce_dst :
      RunContext
      → Instruction
      → Option MaybeRelocatable
      → Result VirtualMachineError MaybeRelocatable
  deduce_dst c i res = dst_by i.opcode c res

-- `if res.is_none() { *res = deduced }`
abbrev pub or_res : Option MaybeRelocatable → Option MaybeRelocatable → Option MaybeRelocatable
or_res none deduced = deduced
or_res (some r) deduced = some r

module _ ⦃F : FeltOps⦄ ⦃H : HashOps⦄ where
  -- An operand, the result so far, and the runners with what their caches have learnt.
  abbrev pub Found : Type 0
  Found = MaybeRelocatable × Option MaybeRelocatable × List BuiltinRunner

  -- What a builtin deduced comes before what the instruction does.
  abbrev pub op0_after :
      VirtualMachine
      → Relocatable
      → Instruction
      → Option MaybeRelocatable
      → Option MaybeRelocatable
      → Option MaybeRelocatable
      → List BuiltinRunner
      → Result VirtualMachineError Found
  op0_after vm addr i dst_op op1_op (some v) bs = ok (v, none, bs)
  op0_after vm addr i dst_op op1_op none bs =
      deduce_op0 vm.run_context i dst_op op1_op >>= λ (op0, res).
      ok_or op0 (VirtualMachineError.failed_to_compute_op0 addr) >>= λ v. ok (v, res, bs)

  unfoldable pub compute_op0_deductions :
      VirtualMachine
      → Relocatable
      → Instruction
      → Option MaybeRelocatable
      → Option MaybeRelocatable
      → Result VirtualMachineError Found
  unfolding deduce_op0
  compute_op0_deductions vm addr i dst_op op1_op =
      deduce_memory_cell vm.builtin_runners addr vm.segments.memory >>= λ (cell, bs).
      op0_after vm addr i dst_op op1_op cell bs

  abbrev pub op1_after :
      Relocatable
      → Instruction
      → Option MaybeRelocatable
      → Option MaybeRelocatable
      → MaybeRelocatable
      → Option MaybeRelocatable
      → List BuiltinRunner
      → Result VirtualMachineError Found
  op1_after addr i res dst_op op0 (some v) bs = ok (v, res, bs)
  op1_after addr i res dst_op op0 none bs = deduce_op1 i dst_op (some op0) >>= λ (op1, deduced).
      ok_or op1 (VirtualMachineError.failed_to_compute_op1 addr) >>= λ v.
      ok (v, or_res res deduced, bs)

  unfoldable pub compute_op1_deductions :
      VirtualMachine
      → List BuiltinRunner
      → Relocatable
      → Instruction
      → Option MaybeRelocatable
      → Option MaybeRelocatable
      → MaybeRelocatable
      → Result VirtualMachineError Found
  unfolding deduce_op1
  compute_op1_deductions vm runners addr i res dst_op op0 =
      deduce_memory_cell runners addr vm.segments.memory >>= λ (cell, bs).
      op1_after addr i res dst_op op0 cell bs

  abbrev pub find_op0 :
      VirtualMachine
      → Relocatable
      → Instruction
      → Option MaybeRelocatable
      → Option MaybeRelocatable
      → Option MaybeRelocatable
      → Result VirtualMachineError Found
  find_op0 vm addr i dst_op op1_op (some v) = ok (v, none, vm.builtin_runners)
  find_op0 vm addr i dst_op op1_op none = compute_op0_deductions vm addr i dst_op op1_op

  abbrev pub find_op1 :
      VirtualMachine
      → List BuiltinRunner
      → Relocatable
      → Instruction
      → Option MaybeRelocatable
      → Option MaybeRelocatable
      → MaybeRelocatable
      → Option MaybeRelocatable
      → Result VirtualMachineError Found
  find_op1 vm bs addr i res dst_op op0 (some v) = ok (v, res, bs)
  find_op1 vm bs addr i res dst_op op0 none = compute_op1_deductions vm bs addr i res dst_op op0

  abbrev pub find_res :
      Instruction
      → MaybeRelocatable
      → MaybeRelocatable
      → Option MaybeRelocatable
      → Result VirtualMachineError (Option MaybeRelocatable)
  find_res i op0 op1 (some r) = ok (some r)
  find_res i op0 op1 none = compute_res i op0 op1

  abbrev pub find_dst :
      RunContext
      → Instruction
      → Option MaybeRelocatable
      → Option MaybeRelocatable
      → Result VirtualMachineError MaybeRelocatable
  find_dst c i res (some v) = ok v
  find_dst c i res none = deduce_dst c i res

  pub record Computed : Type 0 where
    pub operands : Operands
    pub addresses : OperandsAddresses
    pub deduced : DeducedOperands
    pub runners : List BuiltinRunner

  -- `compute_operands`: `op0`, `op1`, the result and `dst`, in this order.
  unfoldable pub compute_operands :
      VirtualMachine → Instruction → Result VirtualMachineError Computed
  unfolding compute_dst_addr compute_op0_addr compute_op1_addr compute_op0_deductions
      compute_op1_deductions compute_res deduce_dst
  compute_operands vm i = do
    let read = get vm.segments.memory
    dst_addr ← compute_dst_addr vm.run_context i
    op0_addr ← compute_op0_addr vm.run_context i
    op1_addr ← compute_op1_addr vm.run_context i (read op0_addr)
    (op0, res₀, bs₀) ← find_op0 vm op0_addr i (read dst_addr) (read op1_addr) (read op0_addr)
    (op1, res₁, bs₁) ← find_op1 vm bs₀ op1_addr i res₀ (read dst_addr) op0 (read op1_addr)
    res ← find_res i op0 op1 res₁
    dst ← find_dst vm.run_context i res (read dst_addr)
    ok (record {
      operands = record { dst = dst; res = res; op0 = op0; op1 = op1 };
      addresses = record { dst_addr = dst_addr; op0_addr = op0_addr; op1_addr = op1_addr };
      deduced = record {
        dst = not (is_some (read dst_addr));
        op0 = not (is_some (read op0_addr));
        op1 = not (is_some (read op1_addr));
      };
      runners = bs₁;
    })
