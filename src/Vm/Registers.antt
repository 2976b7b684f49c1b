-- ===== src/Vm/Registers.antt =====
-- vm/src/vm/vm_core.rs: how an instruction moves the registers.
use cairo_vm.Base.{ℕ, Bool, false, Option, none, some, wrapping_add, ◌==◌, if◌then◌else◌}
use cairo_vm.Base.Result.{Result, ok, err, ◌>>=◌, map_err, ok_or, and_then}
use cairo_vm.Types.Felt.{FeltOps}
use cairo_vm.Types.Value.{Relocatable, MaybeRelocatable, relocatable_value, int}
use cairo_vm.Types.Errors.{MathError, VirtualMachineError}
use cairo_vm.Types.Relocatable.{add_offset, add_felt, add_maybe, get_relocatable}
use cairo_vm.Types.Instruction.{Instruction, PcUpdate, ApUpdate, FpUpdate, size}
use cairo_vm.RunContext.{RunContext, get_ap}
use cairo_vm.Vm.State.{Operands}

-- Used for `jnz`: a relocatable value is never zero.
unfoldable pub is_zero : MaybeRelocatable → Bool
is_zero (int x) = x == 0
is_zero (relocatable_value _) = false

module _ ⦃F : FeltOps⦄ where
  abbrev pub frame_of : MaybeRelocatable → Result VirtualMachineError ℕ
  frame_of (relocatable_value r) = ok r.offset
  frame_of (int x) =
      ok_or (F.to_u64 x) (VirtualMachineError.math (MathError.felt252_to_usize_conversion x))

  abbrev pub next_fp : FpUpdate → RunContext → Operands → Result VirtualMachineError ℕ
  next_fp FpUpdate.ap_plus2 c o = ok (wrapping_add c.ap 2)
  next_fp FpUpdate.dst c o = frame_of o.dst
  next_fp FpUpdate.regular c o = ok c.fp

  unfoldable pub update_fp :
      Instruction → Operands → RunContext → Result VirtualMachineError RunContext
  update_fp i o c = do fp ← next_fp i.fp_update c o; ok (record c { fp = fp })

  abbrev pub moved_ap : RunContext → Option MaybeRelocatable → Result VirtualMachineError ℕ
  moved_ap c none = err VirtualMachineError.unconstrained_res_add
  moved_ap c (some res) = do
    r ← map_err VirtualMachineError.math (add_maybe (get_ap c) res)
    ok r.offset

  abbrev pub next_ap : ApUpdate → RunContext → Operands → Result VirtualMachineError ℕ
  next_ap ApUpdate.add c o = moved_ap c o.res
  next_ap ApUpdate.add1 c o = ok (wrapping_add c.ap 1)
  next_ap ApUpdate.add2 c o = ok (wrapping_add c.ap 2)
  next_ap ApUpdate.regular c o = ok c.ap

  unfoldable pub update_ap :
      Instruction → Operands → RunContext → Result VirtualMachineError RunContext
  unfolding add_maybe
  update_ap i o c = do ap ← next_ap i.ap_update c o; ok (record c { ap = ap })

  abbrev jump_rel_by :
      Relocatable → Option MaybeRelocatable → Result VirtualMachineError Relocatable
  jump_rel_by pc none = err VirtualMachineError.unconstrained_res_jump_rel
  jump_rel_by pc (some (int x)) = map_err VirtualMachineError.math (add_felt pc x)
  jump_rel_by pc (some (relocatable_value _)) = err VirtualMachineError.jump_rel_not_int

  abbrev pub next_pc :
      PcUpdate → Instruction → RunContext → Operands → Result VirtualMachineError Relocatable
  next_pc PcUpdate.regular i c o = map_err VirtualMachineError.math (add_offset c.pc (size i))
  next_pc PcUpdate.jump i c o =
      ok_or (and_then o.res get_relocatable) VirtualMachineError.unconstrained_res_jump
  next_pc PcUpdate.jump_rel i c o = jump_rel_by c.pc o.res
  next_pc PcUpdate.jnz i c o =
      if is_zero o.dst
      then map_err VirtualMachineError.math (add_offset c.pc (size i))
      else map_err VirtualMachineError.math (add_maybe c.pc o.op1)

  unfoldable pub update_pc :
      Instruction → Operands → RunContext → Result VirtualMachineError RunContext
  unfolding add_offset add_felt add_maybe get_relocatable is_zero size
  update_pc i o c = do pc ← next_pc i.pc_update i c o; ok (record c { pc = pc })

  -- In this order: `fp` and `ap` are both taken from the old `ap`.
  unfoldable pub update_registers :
      Instruction → Operands → RunContext → Result VirtualMachineError RunContext
  unfolding update_fp update_ap update_pc
  update_registers i o c = do c₁ ← update_fp i o c; c₂ ← update_ap i o c₁; update_pc i o c₂
