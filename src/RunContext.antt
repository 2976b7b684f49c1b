-- ===== src/RunContext.antt =====
-- vm/src/vm/context/run_context.rs: the registers and the addresses of the operands.
use cairo_vm.Base.{ℕ, suc, Option, none, some, if◌then◌else◌}
use cairo_vm.Base.Int.{ℤ, pos, negsuc, eqb_ℤ}
use cairo_vm.Base.Result.{Result, ok, err, ◌>>=◌, map_err}
use cairo_vm.Types.Value.{Relocatable, rel, MaybeRelocatable, relocatable_value, int}
use cairo_vm.Types.Errors.{MemoryError, VirtualMachineError}
use cairo_vm.Types.Relocatable.{add_offset, sub_offset}
use cairo_vm.Types.Instruction.{Register, Op1Addr, Instruction}

pub record RunContext : Type 0 where
  pub pc : Relocatable
  pub ap : ℕ
  pub fp : ℕ

-- `ap` and `fp` point into the execution segment, which is segment 1.
abbrev pub get_ap : RunContext → Relocatable
get_ap c = rel (pos 1) c.ap

abbrev pub get_fp : RunContext → Relocatable
get_fp c = rel (pos 1) c.fp

abbrev pub register_base : RunContext → Register → Relocatable
register_base c Register.ap = get_ap c
register_base c Register.fp = get_fp c

-- `base - abs(offset)` or `base + offset`, as the offset's sign says.
unfoldable pub offset_by : Relocatable → ℤ → Result VirtualMachineError Relocatable
offset_by base (pos n) = map_err VirtualMachineError.math (add_offset base n)
offset_by base (negsuc n) = map_err VirtualMachineError.math (sub_offset base (suc n))

unfoldable pub compute_dst_addr : RunContext → Instruction → Result VirtualMachineError Relocatable
unfolding offset_by
compute_dst_addr c i = offset_by (register_base c i.dst_register) i.off0

unfoldable pub compute_op0_addr : RunContext → Instruction → Result VirtualMachineError Relocatable
unfolding offset_by
compute_op0_addr c i = offset_by (register_base c i.op0_register) i.off1

abbrev pub op0_base : Option MaybeRelocatable → Result VirtualMachineError Relocatable
op0_base (some (relocatable_value addr)) = ok addr
op0_base (some (int _)) = err (VirtualMachineError.memory MemoryError.address_not_relocatable)
op0_base none = err VirtualMachineError.unknown_op0

abbrev pub op1_base :
    RunContext → Op1Addr → ℤ → Option MaybeRelocatable → Result VirtualMachineError Relocatable
op1_base c Op1Addr.fp off2 op0 = ok (get_fp c)
op1_base c Op1Addr.ap off2 op0 = ok (get_ap c)
op1_base c Op1Addr.imm off2 op0 =
    if eqb_ℤ off2 (pos 1) then ok c.pc else err VirtualMachineError.imm_should_be1
op1_base c Op1Addr.op0 off2 op0 = op0_base op0

unfoldable pub compute_op1_addr :
    RunContext → Instruction → Option MaybeRelocatable → Result VirtualMachineError Relocatable
unfolding offset_by
compute_op1_addr c i op0 = do base ← op1_base c i.op1_addr i.off2 op0; offset_by base i.off2
