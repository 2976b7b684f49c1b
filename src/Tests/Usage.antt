-- ===== src/Tests/Usage.antt =====
-- The bookkeeping of builtins after a run of a bitwise builtin with one instance.
use cairo_vm.Base.{◌↔◌, ◌≤◌, ◌≡◌, ◌≢◌, refl, true, none, some, [], ◌∷◌, arith}
use cairo_vm.Base.Int.{pos}
use cairo_vm.Base.Result.{Result, ok}
use cairo_vm.Types.BuiltinName.{BuiltinName}
use cairo_vm.Types.Value.{rel, relocatable_value, int}
use cairo_vm.Types.Errors.{VirtualMachineError}
use cairo_vm.Types.Relocatable.{sub_offset}
use cairo_vm.Math.Division.{safe_div_usize}
use cairo_vm.Memory.Cell.{get_value, new}
use cairo_vm.Memory.Store.{Segment, get}
use cairo_vm.Memory.Reads.{get_relocatable}
use cairo_vm.Segments.{MemorySegmentManager, get_segment_used_size}
use cairo_vm.Builtins.Runner.{Common, BuiltinRunner, bitwise, set_stop_ptr, name, keccak, base}
use cairo_vm.Builtins.Usage.{final_stack, n_input_cells, cells_per_instance}
use cairo_vm.Builtins.Allocated.{
  get_used_cells_and_allocated_size, get_used_cells_and_allocated_size-le,
}
use cairo_vm.Builtins.Diluted.{get_used_diluted_check_units}
use cairo_vm.Builtins.FinalStack.{IsStopped, final_stack-IsStopped_iff}
use cairo_vm.Builtins.Security.{is_set, run_security_checks}
use cairo_vm.Builtins.Security.Inputs.{run_security_checks-is_set}
use cairo_vm.Vm.State.{VirtualMachine}
use cairo_vm.Tests.Field.{felt_ops, hash_ops}
use cairo_vm.Tests.Machine.{start, memory}

abbrev builtin : Common
builtin = record { base = 2; ratio = some 4; ratio_den = none; stop_ptr = none; included = true }

-- One instance, and a stack with the stop pointer.
abbrev cells : Segment
cells = new (int 12) ∷ new (int 10) ∷ new (int 8) ∷ new (int 6) ∷ new (int 14) ∷ []

abbrev stack_cells : Segment
stack_cells = new (relocatable_value (rel (pos 2) 5)) ∷ []

abbrev segments_after : MemorySegmentManager
segments_after = record start.segments {
  memory = record memory { data_segments = [] ∷ stack_cells ∷ cells ∷ [] };
  segment_used_sizes = some (0 ∷ 1 ∷ 5 ∷ []);
}

abbrev after : VirtualMachine
after = record start {
  builtin_runners = bitwise builtin ∷ [];
  segments = segments_after;
  current_step = 16;
}

stopped :
    final_stack (bitwise builtin) segments_after (rel (pos 1) 1)
    ≡ ok (set_stop_ptr (bitwise builtin) 5, rel (pos 1) 0)
unfolding final_stack sub_offset get_relocatable get get_value new get_segment_used_size
stopped = refl

final_stack-IsStopped_iff_example :
    (final_stack (bitwise builtin) segments_after (rel (pos 1) 1)
      ≡ ok (set_stop_ptr (bitwise builtin) 5, rel (pos 1) 0))
    ↔ IsStopped
        (bitwise builtin)
        (set_stop_ptr (bitwise builtin) 5)
        segments_after
        (rel (pos 1) 1)
        (rel (pos 1) 0)
final_stack-IsStopped_iff_example =
    final_stack-IsStopped_iff (bitwise builtin) (set_stop_ptr (bitwise builtin) 5) segments_after
      (rel (pos 1) 1) (rel (pos 1) 0) refl

-- 16 steps with an instance every 4 steps.
sizes : get_used_cells_and_allocated_size (bitwise builtin) after ≡ ok (5, 20)
unfolding get_used_cells_and_allocated_size get_segment_used_size safe_div_usize
sizes = refl

used_cells_fit : 5 ≤ 20
used_cells_fit = get_used_cells_and_allocated_size-le (bitwise builtin) after 5 20 sizes

keccak_units : get_used_diluted_check_units (keccak builtin) 0 8 ≡ 32768
unfolding get_used_diluted_check_units
keccak_units = refl

bitwise_units : get_used_diluted_check_units (bitwise builtin) 12 2 ≡ 535
unfolding get_used_diluted_check_units
bitwise_units = refl

no_checks : BuiltinRunner → VirtualMachine → Result VirtualMachineError (Unit {0})
no_checks b vm = ok tt

secure : run_security_checks no_checks (bitwise builtin) after ≡ ok (bitwise builtin)
unfolding run_security_checks new
secure = refl

not_arena : name (bitwise builtin) ≢ BuiltinName.segment_arena
unfolding name
not_arena e = cc e

output_set : is_set cells 4 ≡ true
unfolding is_set new
output_set = refl

run_security_checks-is_set_example : is_set cells 1 ≡ true
unfolding cells_per_instance n_input_cells base
run_security_checks-is_set_example =
    run_security_checks-is_set no_checks (bitwise builtin) (bitwise builtin) after cells 4 1 secure
      not_arena refl output_set (omega arith)
