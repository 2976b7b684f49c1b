-- ===== src/Tests/Ended.antt =====
-- The theorems on comparison and on the end of a run at a machine with a bitwise builtin.
use cairo_vm.Base.{◌≡◌, refl, true, none, some, [], ◌∷◌}
use cairo_vm.Base.Int.{pos}
use cairo_vm.Base.Result.{ok}
use cairo_vm.Types.Value.{rel, MaybeRelocatable, int}
use cairo_vm.Types.Relocatable.{sub_offset}
use cairo_vm.Memory.Cell.{get_value, new, empty}
use cairo_vm.Memory.Store.{Segment, get}
use cairo_vm.Memory.Reads.{integer_of}
use cairo_vm.Memory.Compare.{memcmp, Verdict, memcmp-Verdict}
use cairo_vm.Builtins.Runner.{Common, bitwise}
use cairo_vm.Builtins.Bitwise
use cairo_vm.Vm.State.{VirtualMachine}
use cairo_vm.Vm.EndRun.{end_run, end_run-deduce_memory_cell}
use cairo_vm.Tests.Field.{felt_ops, hash_ops}
use cairo_vm.Tests.Machine.{start, memory, machine_of}

abbrev builtin : Common
builtin = record { base = 2; ratio = none; ratio_den = none; stop_ptr = none; included = true }

-- 12 and 10, and their conjunction.
abbrev cells : Segment
cells = new (int 12) ∷ new (int 10) ∷ new (int 8) ∷ []

abbrev calculated : VirtualMachine
calculated = record start {
  builtin_runners = bitwise builtin ∷ [];
  segments = record start.segments {
    memory = record memory { data_segments = [] ∷ [] ∷ cells ∷ [] };
  };
}

unfoldable ended : VirtualMachine
unfolding end_run
ended = machine_of (end_run calculated 1)

calculated-ended : end_run calculated 1 ≡ ok ended
unfolding ended end_run get get_value new empty Bitwise.deduce_memory_cell sub_offset integer_of
calculated-ended = refl

calculated_cell :
    Bitwise.deduce_memory_cell (get calculated.segments.memory) (rel (pos 2) 2) ≡ ok (some (int 8))
unfolding Bitwise.deduce_memory_cell get get_value new sub_offset integer_of
calculated_cell = refl

third_value : get_value (new (int 8)) ≡ some (int 8)
unfolding get_value new
third_value = refl

end_run-deduce_memory_cell_example : Path MaybeRelocatable (int 8) (int 8)
end_run-deduce_memory_cell_example =
    end_run-deduce_memory_cell calculated ended 1 0 builtin cells 2 (new (int 8)) (int 8) (int 8)
      refl refl calculated-ended refl calculated_cell third_value

raw_comparison :
    Verdict cells cells 0 1 0 2
      (memcmp calculated.segments.memory (rel (pos 2) 0) (rel (pos 2) 1) 2).0
      (memcmp calculated.segments.memory (rel (pos 2) 0) (rel (pos 2) 1) 2).1
raw_comparison =
    memcmp-Verdict calculated.segments.memory (rel (pos 2) 0) (rel (pos 2) 1) 2 cells cells refl
      refl
