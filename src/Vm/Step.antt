-- ===== src/Vm/Step.antt =====
-- vm/src/vm/vm_core.rs: the execution of one instruction, with its checks, its writes and the
-- instruction cache.
use cairo_vm.Base.{
  ℕ, ◌+◌, ◌^◌, Bool, true, false, Option, none, some, List, [], ◌∷◌, ◌++◌, leb, if◌then◌else◌,
  wrapping_add, length, get_elem?, set, grow,
}
use cairo_vm.Base.Int.{ℤ, pos, eqb_ℤ, ◌+ℤ◌, min_ℤ, max_ℤ}
use cairo_vm.Base.Result.{Result, ok, err, ◌>>=◌, ◌>>◌, guard, map_err, ok_or}
use cairo_vm.Types.Felt.{FeltOps}
use cairo_vm.Types.Value.{Relocatable, rel, MaybeRelocatable, relocatable_value, eqb}
use cairo_vm.Types.Errors.{MemoryError, VirtualMachineError}
use cairo_vm.Types.Relocatable.{add_offset, add_assign}
use cairo_vm.Types.Instruction.{Instruction, Opcode, size}
use cairo_vm.RunContext.{RunContext, get_fp}
use cairo_vm.Memory.Store.{Memory, Segment, insert, mark_as_accessed}
use cairo_vm.Memory.Reads.{get_integer}
use cairo_vm.Builtins.Runner.{HashOps}
use cairo_vm.Decoder.{decode_instruction}
use cairo_vm.Vm.State.{VirtualMachine, Operands, OperandsAddresses, DeducedOperands, TraceEntry}
use cairo_vm.Vm.Registers.{update_registers}
use cairo_vm.Vm.Operands.{compute_operands}

abbrev pub assert_eq_check :
    MaybeRelocatable → Option MaybeRelocatable → Result VirtualMachineError (Unit {0})
assert_eq_check dst none = err VirtualMachineError.unconstrained_res_assert_eq
assert_eq_check dst (some res) =
    if eqb res dst then ok tt else err (VirtualMachineError.diff_assert_values dst res)

abbrev pub call_check :
    RunContext → MaybeRelocatable → Operands → Result VirtualMachineError (Unit {0})
call_check c return_pc o = do
  guard (eqb o.op0 return_pc) (VirtualMachineError.cant_write_return_pc o.op0 return_pc)
  let return_fp = relocatable_value (get_fp c)
  guard (eqb return_fp o.dst) (VirtualMachineError.cant_write_return_fp o.dst return_fp)

abbrev pub assertions_by :
    Opcode → RunContext → Instruction → Operands → Result VirtualMachineError (Unit {0})
assertions_by Opcode.assert_eq c i o = assert_eq_check o.dst o.res
assertions_by Opcode.call c i o = do
  pc ← map_err VirtualMachineError.math (add_offset c.pc (size i))
  call_check c (relocatable_value pc) o
assertions_by _ c i o = ok tt

unfoldable pub opcode_assertions :
    RunContext → Instruction → Operands → Result VirtualMachineError (Unit {0})
unfolding add_offset size
opcode_assertions c i o = assertions_by i.opcode c i o

-- The limits of the biased offsets seen so far.
abbrev pub biased : ℤ → ℤ
biased off = off +ℤ pos (2 ^ 15)

abbrev pub limits_or : Option (ℤ × ℤ) → ℤ → ℤ × ℤ
limits_or none off = (off, off)
limits_or (some l) off = l

unfoldable pub update_rc_limits : Option (ℤ × ℤ) → Instruction → ℤ × ℤ
update_rc_limits limits i =
    let (a, b, c) : ℤ × ℤ × ℤ = (biased i.off0, biased i.off1, biased i.off2) in
    let (lo, hi) = limits_or limits a in
    (min_ℤ (min_ℤ (min_ℤ lo a) b) c, max_ℤ (max_ℤ (max_ℤ hi a) b) c)

abbrev pub push_trace : RunContext → Option (List TraceEntry) → Option (List TraceEntry)
push_trace c none = none
push_trace c (some entries) = some (entries ++ record { pc = c.pc; ap = c.ap; fp = c.fp } ∷ [])

abbrev pub first_length : List Segment → Option ℕ
first_length [] = none
first_length (s ∷ _) = some (length s)

abbrev pub is_program_segment : ℤ → Bool
is_program_segment s = eqb_ℤ s (pos 0)

module _ ⦃F : FeltOps⦄ where
  abbrev pub insert_if :
      Bool → Relocatable → MaybeRelocatable → Memory → Result VirtualMachineError Memory
  insert_if false a v m = ok m
  insert_if true a v m = map_err VirtualMachineError.memory (insert m a v)

  -- Only operands that were missing are written: `op0`, `op1`, then `dst`.
  unfoldable pub insert_deduced_operands :
      DeducedOperands → Operands → OperandsAddresses → Memory → Result VirtualMachineError Memory
  insert_deduced_operands d o a m = do
    m₁ ← insert_if d.op0 a.op0_addr o.op0 m
    m₂ ← insert_if d.op1 a.op1_addr o.op1 m₁
    insert_if d.dst a.dst_addr o.dst m₂

  unfoldable pub mark_operands : OperandsAddresses → Memory → Memory
  mark_operands a m =
      mark_as_accessed (mark_as_accessed (mark_as_accessed m a.dst_addr) a.op0_addr) a.op1_addr

  unfoldable pub decode_current_instruction :
      Memory → RunContext → Result VirtualMachineError Instruction
  decode_current_instruction m c = do
    x ← map_err VirtualMachineError.memory (get_integer m c.pc)
    w ← ok_or (F.to_u64 x) VirtualMachineError.invalid_instruction_encoding
    decode_instruction w

module _ ⦃F : FeltOps⦄ ⦃H : HashOps⦄ where
  unfoldable pub run_instruction :
      VirtualMachine → Instruction → Result VirtualMachineError VirtualMachine
  unfolding compute_operands insert_deduced_operands opcode_assertions update_registers
      update_rc_limits mark_operands
  run_instruction vm i = do
    let c = vm.run_context
    let segments = vm.segments
    o ← compute_operands vm i
    m ← insert_deduced_operands o.deduced o.operands o.addresses segments.memory
    opcode_assertions c i o.operands
    registers ← update_registers i o.operands c
    ok (record vm {
      run_context = registers;
      builtin_runners = o.runners;
      segments = record segments { memory = mark_operands o.addresses m };
      trace = push_trace c vm.trace;
      rc_limits = some (update_rc_limits vm.rc_limits i);
      current_step = wrapping_add vm.current_step 1;
    })

  -- The instruction is run, or skipped if a hint asked for that.
  unfoldable pub run_or_skip :
      VirtualMachine → Instruction → Result VirtualMachineError VirtualMachine
  unfolding run_instruction add_assign size
  run_or_skip vm i =
      let c = vm.run_context in
      if vm.skip_instruction_execution
      then ok (record vm {
        run_context = record c { pc = add_assign c.pc (size i) };
        skip_instruction_execution = false;
      })
      else run_instruction vm i

  abbrev pub cached_instruction :
      VirtualMachine → Option (Option Instruction) → Result VirtualMachineError Instruction
  cached_instruction vm (some (some i)) = ok i
  cached_instruction vm _ = decode_current_instruction vm.segments.memory vm.run_context

  -- An instruction of the program segment: decoded once, then taken from the cache.
  abbrev pub step_cached : VirtualMachine → Option ℕ → ℕ → Result VirtualMachineError VirtualMachine
  step_cached vm none pc = err VirtualMachineError.panicked
  step_cached vm (some len) pc =
      if leb len pc
      then err (VirtualMachineError.memory (MemoryError.unknown_memory_cell (rel (pos 0) pc)))
      else let cache = grow vm.instruction_cache (pc + 1) none in
        cached_instruction vm (get_elem? cache pc) >>= λ i.
        run_or_skip vm i >>= λ vm'. ok (record vm' { instruction_cache = set cache pc (some i) })

  unfoldable pub step_instruction : VirtualMachine → Result VirtualMachineError VirtualMachine
  unfolding decode_current_instruction run_or_skip
  step_instruction vm =
      let uncached =
        decode_current_instruction vm.segments.memory vm.run_context >>= λ i. run_or_skip vm i in
      if is_program_segment vm.run_context.pc.segment_index
      then step_cached vm (first_length vm.segments.memory.data_segments) vm.run_context.pc.offset
      else uncached
