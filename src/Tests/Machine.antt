-- ===== src/Tests/Machine.antt =====
-- A program that calls a function and comes back, and the machine that is about to run it.
use cairo_vm.Base.{false, none, some, List, [], ◌∷◌, ◌≡◌, refl, map}
use cairo_vm.Base.Int.{pos, negsuc}
use cairo_vm.Base.Result.{Result, ok, err}
use cairo_vm.Types.Value.{rel, MaybeRelocatable, relocatable_value, int}
use cairo_vm.Types.Errors.{VirtualMachineError}
use cairo_vm.Types.Instruction.{
  Instruction, Register, Op1Addr, Res, PcUpdate, ApUpdate, FpUpdate, Opcode,
}
use cairo_vm.Memory.Cell.{new}
use cairo_vm.Memory.Store.{Memory, new_memory}
use cairo_vm.Segments.{new_segments}
use cairo_vm.Decoder.{decode_instruction}
use cairo_vm.Vm.State.{VirtualMachine}
use cairo_vm.Vm.Step.{run_instruction, step_instruction}
use cairo_vm.Tests.Field.{felt_ops, hash_ops}

-- `call rel 4`, then at offset 4 `[ap] = 5; ap++` and `ret`.
abbrev pub program : List MaybeRelocatable
program =
    int 0x1104800180018000
    ∷ int 4
    ∷ int 0x208b7fff7fff7ffe
    ∷ int 0
    ∷ int 0x480680017fff8000
    ∷ int 5
    ∷ int 0x208b7fff7fff7ffe
    ∷ []

abbrev pub stack : List MaybeRelocatable
stack = relocatable_value (rel (pos 2) 0) ∷ relocatable_value (rel (pos 3) 0) ∷ []

abbrev pub memory : Memory
memory = record new_memory { data_segments = map new program ∷ map new stack ∷ [] ∷ [] ∷ [] }

abbrev pub start : VirtualMachine
start = record {
  run_context = record { pc = rel (pos 0) 0; ap = 2; fp = 2 };
  builtin_runners = [];
  segments = record new_segments { memory = memory };
  trace = some [];
  current_step = 0;
  rc_limits = none;
  skip_instruction_execution = false;
  run_finished = false;
  instruction_cache = [];
  relocation_table = none;
}

abbrev pub call_instruction : Instruction
call_instruction = record {
  off0 = pos 0;
  off1 = pos 1;
  off2 = pos 1;
  dst_register = Register.ap;
  op0_register = Register.ap;
  op1_addr = Op1Addr.imm;
  res = Res.op1;
  pc_update = PcUpdate.jump_rel;
  ap_update = ApUpdate.add2;
  fp_update = FpUpdate.ap_plus2;
  opcode = Opcode.call;
}

abbrev pub ret_instruction : Instruction
ret_instruction = record {
  off0 = negsuc 1;
  off1 = negsuc 0;
  off2 = negsuc 0;
  dst_register = Register.fp;
  op0_register = Register.fp;
  op1_addr = Op1Addr.fp;
  res = Res.op1;
  pc_update = PcUpdate.jump;
  ap_update = ApUpdate.regular;
  fp_update = FpUpdate.dst;
  opcode = Opcode.ret;
}

abbrev pub assert_instruction : Instruction
assert_instruction = record {
  off0 = pos 0;
  off1 = negsuc 0;
  off2 = pos 1;
  dst_register = Register.ap;
  op0_register = Register.fp;
  op1_addr = Op1Addr.imm;
  res = Res.op1;
  pc_update = PcUpdate.regular;
  ap_update = ApUpdate.add1;
  fp_update = FpUpdate.regular;
  opcode = Opcode.assert_eq;
}

pub decode_call : decode_instruction 0x1104800180018000 ≡ ok call_instruction
unfolding decode_instruction
decode_call = refl

pub decode_ret : decode_instruction 0x208b7fff7fff7ffe ≡ ok ret_instruction
unfolding decode_instruction
decode_ret = refl

pub decode_assert : decode_instruction 0x480680017fff8000 ≡ ok assert_instruction
unfolding decode_instruction
decode_assert = refl

abbrev pub machine_of : Result VirtualMachineError VirtualMachine → VirtualMachine
machine_of (ok vm) = vm
machine_of (err e) = start

unfoldable pub called : VirtualMachine
unfolding run_instruction
called = machine_of (run_instruction start call_instruction)

unfoldable pub stepped : VirtualMachine
unfolding step_instruction called
stepped = machine_of (step_instruction called)

unfoldable pub returned : VirtualMachine
unfolding run_instruction stepped
returned = machine_of (run_instruction stepped ret_instruction)

-- The same by whole steps.
unfoldable pub entered : VirtualMachine
unfolding step_instruction
entered = machine_of (step_instruction start)

unfoldable pub returning : VirtualMachine
unfolding step_instruction entered
returning = machine_of (step_instruction entered)
