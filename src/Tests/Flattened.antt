-- ===== src/Tests/Flattened.antt =====
-- The flat memory of a machine with two segments in use.
use cairo_vm.Base.{
  ℕ, ◌+◌, ◌<◌, ◌≡◌, refl, true, false, none, some, List, [], ◌∷◌, arith, word, get_elem?,
}
use cairo_vm.Base.Int.{pos}
use cairo_vm.Base.Result.{Result, ok, err}
use cairo_vm.Types.Value.{rel, relocatable_value}
use cairo_vm.Types.Errors.{TraceError, MemoryError, RunnerError}
use cairo_vm.Types.BuiltinName.{BuiltinName}
use cairo_vm.Runner.Returned.{read_return_values, get_builtin_segments_info}
use cairo_vm.Types.Relocatable.{relocate_address, relocate_value}
use cairo_vm.Memory.Cell.{get_value, new}
use cairo_vm.Memory.Store.{value_at}
use cairo_vm.Segments.{MemorySegmentManager, new_segments, get_segment_size, relocate_segments}
use cairo_vm.Segments.Layout.{total_size}
use cairo_vm.Runner.State.{CairoRunner}
use cairo_vm.Runner.Relocate.{relocate_memory, relocate_trace}
use cairo_vm.Runner.Relocate.Flat.{relocate_memory-get_elem?, used_sizes-InSegment}
use cairo_vm.Tests.Field.{felt_ops}
use cairo_vm.Tests.Machine.{memory, start}
use cairo_vm.Tests.Started.{runner}

abbrev sizes : List ℕ
sizes = 7 ∷ 2 ∷ 0 ∷ 0 ∷ []

abbrev table : List ℕ
table = 1 ∷ 8 ∷ 10 ∷ 10 ∷ []

abbrev manager : MemorySegmentManager
manager = record new_segments { memory = memory; segment_used_sizes = some sizes }

abbrev ended : CairoRunner ℕ ℕ
ended = record runner { vm = record start { segments = manager } }

abbrev runner_of : Result MemoryError (CairoRunner ℕ ℕ) → CairoRunner ℕ ℕ
runner_of (ok r) = r
runner_of (err e) = ended

unfoldable flattened : CairoRunner ℕ ℕ
unfolding relocate_memory
flattened = runner_of (relocate_memory ended table)

table-found : relocate_segments manager ≡ ok table
unfolding relocate_segments get_segment_size
table-found = refl

memory-flattened : relocate_memory ended table ≡ ok flattened
unfolding flattened relocate_memory get_value new relocate_address relocate_value
memory-flattened = refl

sizes-fit : 1 + total_size manager 0 sizes < word
unfolding total_size get_segment_size
sizes-fit = omega arith

stack_top : value_at memory (rel (pos 1) 1) ≡ some (relocatable_value (rel (pos 3) 0))
unfolding value_at get_value new
stack_top = refl

stack_top_address : relocate_address (rel (pos 1) 1) table ≡ ok 9
unfolding relocate_address
stack_top_address = refl

stack_top_value : relocate_value (relocatable_value (rel (pos 3) 0)) table ≡ ok 10
unfolding relocate_value
stack_top_value = refl

relocate_memory-get_elem?_example : get_elem? flattened.relocated_memory 9 ≡ some (some 10)
relocate_memory-get_elem?_example =
    relocate_memory-get_elem? ended flattened sizes table refl sizes-fit
      (used_sizes-InSegment manager refl refl) table-found memory-flattened 1 1
      (relocatable_value (rel (pos 3) 0)) 9 10 stack_top stack_top_address stack_top_value

-- The trace has no entry for a run without trace.
no_trace_error :
    relocate_trace (record runner { vm = record start { trace = none } }) table
    ≡ err TraceError.trace_not_enabled
unfolding relocate_trace
no_trace_error = refl

-- What the builtins leave is read only after the end of the run.
too_early : read_return_values ended false ≡ err RunnerError.read_return_values_no_end_run
unfolding read_return_values
too_early = refl

abbrev with_output : CairoRunner ℕ ℕ
with_output = record ended {
  run_ended = true;
  program = record ended.program { builtins = BuiltinName.output ∷ [] };
}

no_output_runner :
    read_return_values with_output false ≡ err (RunnerError.missing_builtin BuiltinName.output)
unfolding read_return_values
no_output_runner = refl

no_runners : get_builtin_segments_info ended ≡ ok []
unfolding get_builtin_segments_info
no_runners = refl
