-- ===== src/Tests/Cached.antt =====
-- The theorems on the instruction cache and on runs at the test program.
use cairo_vm.Base.{◌≡◌, refl, some}
use cairo_vm.Base.Int.{pos}
use cairo_vm.Base.Result.{ok}
use cairo_vm.Types.Value.{rel, relocatable_value}
use cairo_vm.Types.Relocatable.{sub_offset}
use cairo_vm.Decoder.{decode_instruction}
use cairo_vm.Memory.Cell.{get_value, new, empty, mark_accessed}
use cairo_vm.Memory.Store.{get, insert, mark_as_accessed}
use cairo_vm.Memory.Reads.{get_integer}
use cairo_vm.Builtins.Deduce.{deduce_memory_cell}
use cairo_vm.Vm.Step.{step_instruction}
use cairo_vm.Vm.Coherent.{IsCoherent, step_instruction-IsCoherent}
use cairo_vm.Vm.Cache.{forget_result, plain_step, step_instruction-plain_step}
use cairo_vm.Vm.Reachable.{Steps, done, next, Steps-Keeps, Steps-IsCoherent}
use cairo_vm.Tests.Field.{felt_ops, hash_ops}
use cairo_vm.Tests.Machine.{start, entered, returning}

start-IsCoherent : IsCoherent start
start-IsCoherent pc i h = cc h

start-entered : step_instruction start ≡ ok entered
unfolding step_instruction entered sub_offset get deduce_memory_cell get_value new insert empty
    mark_as_accessed get_integer decode_instruction mark_accessed
start-entered = refl

entered-returning : step_instruction entered ≡ ok returning
unfolding step_instruction returning sub_offset get deduce_memory_cell get_value new insert empty
    mark_as_accessed get_integer decode_instruction mark_accessed
entered-returning = refl

start-returning : Steps start returning
start-returning = next start-entered (next entered-returning done)

step_instruction-IsCoherent_example : IsCoherent entered
step_instruction-IsCoherent_example =
    step_instruction-IsCoherent start entered start-IsCoherent start-entered

step_instruction-plain_step_example :
    forget_result (step_instruction start) ≡ forget_result (plain_step start)
step_instruction-plain_step_example = step_instruction-plain_step start 7 start-IsCoherent refl

Steps-IsCoherent_example : IsCoherent returning
Steps-IsCoherent_example = Steps-IsCoherent start returning start-returning start-IsCoherent

stack_value : get start.segments.memory (rel (pos 1) 1) ≡ some (relocatable_value (rel (pos 3) 0))
unfolding get get_value new
stack_value = refl

Steps-Keeps_example :
    get returning.segments.memory (rel (pos 1) 1) ≡ some (relocatable_value (rel (pos 3) 0))
Steps-Keeps_example =
    Steps-Keeps start returning (rel (pos 1) 1) (relocatable_value (rel (pos 3) 0)) start-returning
      stack_value
