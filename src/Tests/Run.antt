-- ===== src/Tests/Run.antt =====
-- The theorems on runs of the machine at the program that calls a function and comes back.
use cairo_vm.Base.{◌+◌, ◌≡◌, refl, some, arith}
use cairo_vm.Base.Int.{pos}
use cairo_vm.Base.Result.{ok}
use cairo_vm.Types.Value.{rel, relocatable_value, IsRelocatable}
use cairo_vm.Types.Relocatable.{add_offset, sub_offset}
use cairo_vm.Types.Instruction.{size}
use cairo_vm.Decoder.{decode_instruction}
use cairo_vm.Memory.Cell.{get_value, new, empty, mark_accessed}
use cairo_vm.Memory.Store.{get, insert, mark_as_accessed}
use cairo_vm.Memory.Reads.{get_integer}
use cairo_vm.Memory.Valid.{IsValid}
use cairo_vm.Builtins.Deduce.{deduce_memory_cell}
use cairo_vm.Vm.Step.{run_instruction, step_instruction}
use cairo_vm.Vm.Frames.{IsCall, IsRet}
use cairo_vm.Vm.Return.{Called, run_instruction-call}
use cairo_vm.Vm.Reachable.{done, next, call-ret}
use cairo_vm.Tests.Field.{felt_ops, hash_ops}
use cairo_vm.Tests.Machine.{start, called, stepped, returned, call_instruction, ret_instruction}
use cairo_vm.Tests.Valid.{segments_fit-IsValid}

start-called : run_instruction start call_instruction ≡ ok called
unfolding run_instruction called get deduce_memory_cell get_value new insert empty
start-called = refl

called-stepped : step_instruction called ≡ ok stepped
unfolding step_instruction stepped called sub_offset get deduce_memory_cell get_value new insert
    empty mark_as_accessed get_integer decode_instruction mark_accessed
called-stepped = refl

stepped-returned : run_instruction stepped ret_instruction ≡ ok returned
unfolding returned sub_offset get deduce_memory_cell get_value new insert empty mark_as_accessed
    get_integer decode_instruction mark_accessed
stepped-returned = refl

stepped-fp : stepped.run_context.fp ≡ called.run_context.fp
unfolding stepped called sub_offset get deduce_memory_cell get_value new insert empty
    mark_as_accessed get_integer decode_instruction mark_accessed
stepped-fp = refl

stepped-IsValid : IsValid stepped.segments.memory
unfolding stepped sub_offset get deduce_memory_cell get_value new insert empty mark_as_accessed
    get_integer decode_instruction mark_accessed
stepped-IsValid = segments_fit-IsValid stepped.segments.memory refl refl refl

call_instruction-IsCall : IsCall call_instruction
call_instruction-IsCall = record {
  opcode = refl;
  fp_update = refl;
  dst_register = refl;
  off0 = refl;
  op0_register = refl;
  off1 = refl;
}

ret_instruction-IsRet : IsRet ret_instruction
ret_instruction-IsRet = record {
  fp_update = refl;
  pc_update = refl;
  res = refl;
  dst_register = refl;
  off0 = refl;
  op0_register = refl;
  off1 = refl;
  op1_addr = refl;
  off2 = refl;
}

start-pc : IsRelocatable start.run_context.pc
start-pc = record { segment = omega arith; offset = omega arith }

call-ret_example :
    (returned.run_context.fp ≡ start.run_context.fp)
    × (add_offset start.run_context.pc (size call_instruction) ≡ ok returned.run_context.pc)
call-ret_example =
    call-ret start called stepped returned call_instruction ret_instruction call_instruction-IsCall
      ret_instruction-IsRet refl start-pc (omega arith) (omega arith) start-called
      (next called-stepped done) stepped-fp stepped-IsValid stepped-returned

run_instruction-call_example : Called start call_instruction called
run_instruction-call_example =
    run_instruction-call start called call_instruction call_instruction-IsCall refl start-pc
      (omega arith) (omega arith) start-called

stepped-saved_fp :
    get stepped.segments.memory (rel (pos 1) 2) ≡ some (relocatable_value (rel (pos 1) 2))
unfolding stepped sub_offset get deduce_memory_cell get_value new insert empty mark_as_accessed
    get_integer decode_instruction mark_accessed
stepped-saved_fp = refl

stepped-saved_pc :
    get stepped.segments.memory (rel (pos 1) 3) ≡ some (relocatable_value (rel (pos 0) 2))
unfolding stepped sub_offset get deduce_memory_cell get_value new insert empty mark_as_accessed
    get_integer decode_instruction mark_accessed
stepped-saved_pc = refl

stepped-fp_at : stepped.run_context.fp ≡ 2 + 2
unfolding stepped sub_offset get deduce_memory_cell get_value new insert empty mark_as_accessed
    get_integer decode_instruction mark_accessed
stepped-fp_at = refl
