-- ===== src/Vm/State.antt =====
-- vm/src/vm/vm_core.rs: the state of the machine, and operands.
use cairo_vm.Base.{ℕ, Bool, true, false, Option, none, some, List, []}
use cairo_vm.Base.Int.{ℤ, pos}
use cairo_vm.Types.Value.{Relocatable, rel, MaybeRelocatable}
use cairo_vm.Types.Instruction.{Instruction}
use cairo_vm.RunContext.{RunContext}
use cairo_vm.Segments.{MemorySegmentManager, new_segments}
use cairo_vm.Builtins.Runner.{BuiltinRunner}

pub record Operands : Type 0 where
  pub dst : MaybeRelocatable
  pub res : Option MaybeRelocatable
  pub op0 : MaybeRelocatable
  pub op1 : MaybeRelocatable

pub record OperandsAddresses : Type 0 where
  pub dst_addr : Relocatable
  pub op0_addr : Relocatable
  pub op1_addr : Relocatable

-- Which operands were missing in memory: the source keeps three bits of a `u8`.
pub record DeducedOperands : Type 0 where
  pub dst : Bool
  pub op0 : Bool
  pub op1 : Bool

pub record TraceEntry : Type 0 where
  pub pc : Relocatable
  pub ap : ℕ
  pub fp : ℕ

-- `VirtualMachine`, without the hooks that only tests use.
pub record VirtualMachine : Type 0 where
  pub run_context : RunContext
  pub builtin_runners : List BuiltinRunner
  pub segments : MemorySegmentManager
  pub trace : Option (List TraceEntry)
  pub current_step : ℕ
  pub rc_limits : Option (ℤ × ℤ)
  pub skip_instruction_execution : Bool
  pub run_finished : Bool
  pub instruction_cache : List (Option Instruction)
  pub relocation_table : Option (List ℕ)

abbrev initial_trace : Bool → Option (List TraceEntry)
initial_trace true = some []
initial_trace false = none

-- `VirtualMachine::new`
unfoldable pub new_vm : Bool → VirtualMachine
new_vm trace_enabled = record {
  run_context = record { pc = rel (pos 0) 0; ap = 0; fp = 0 };
  builtin_runners = [];
  segments = new_segments;
  trace = initial_trace trace_enabled;
  current_step = 0;
  rc_limits = none;
  skip_instruction_execution = false;
  run_finished = false;
  instruction_cache = [];
  relocation_table = none;
}
