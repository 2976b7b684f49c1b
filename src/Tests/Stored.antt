-- ===== src/Tests/Stored.antt =====
-- The theorems on memory at the memory of the test program.
use cairo_vm.Base.{◌≡◌, refl, some, arith}
use cairo_vm.Base.Int.{pos}
use cairo_vm.Base.Result.{Result, ok, err}
use cairo_vm.Types.Value.{Relocatable, rel, MaybeRelocatable, relocatable_value, int, IsValue}
use cairo_vm.Types.Errors.{MemoryError}
use cairo_vm.Types.Relocatable.{add, sub}
use cairo_vm.Types.Relocatable.Laws.{add-sub}
use cairo_vm.Memory.Cell.{get_value, new, empty, get_value-new}
use cairo_vm.Memory.Store.{Memory, get, insert, value_at}
use cairo_vm.Memory.WriteOnce.{Updated, insert-Updated, insert-inconsistent}
use cairo_vm.Memory.Valid.{IsValid, insert-IsValid, get-IsValue}
use cairo_vm.Tests.Field.{felt_ops}
use cairo_vm.Tests.Machine.{memory}
use cairo_vm.Tests.Valid.{segments_fit-IsValid}

abbrev memory_of : Result MemoryError Memory → Memory
memory_of (ok m) = m
memory_of (err e) = memory

-- An address beyond the end of the stack.
abbrev free : Relocatable
free = rel (pos 1) 5

unfoldable larger : Memory
unfolding insert
larger = memory_of (insert memory free (int 7))

memory-larger : insert memory free (int 7) ≡ ok larger
unfolding larger get_value new insert empty
memory-larger = refl

memory-IsValid : IsValid memory
unfolding get_value new
memory-IsValid = segments_fit-IsValid memory refl refl refl

stack_value : get memory (rel (pos 1) 1) ≡ some (relocatable_value (rel (pos 3) 0))
unfolding get get_value new
stack_value = refl

stack_stored : value_at memory (rel (pos 1) 1) ≡ some (relocatable_value (rel (pos 3) 0))
unfolding value_at get_value new
stack_stored = refl

insert-Updated_example : Updated memory free (int 7) larger
insert-Updated_example = insert-Updated memory larger free (int 7) (omega arith) memory-larger

insert-inconsistent_example :
    insert memory (rel (pos 1) 1) (int 7)
    ≡ err (
        MemoryError.inconsistent_memory (rel (pos 1) 1) (relocatable_value (rel (pos 3) 0)) (int 7))
insert-inconsistent_example =
    insert-inconsistent memory (rel (pos 1) 1) (relocatable_value (rel (pos 3) 0)) (int 7)
      stack_stored (λ e. cc e)

larger-IsValid : IsValid larger
larger-IsValid =
    insert-IsValid memory larger free (int 7) memory-IsValid (omega arith) memory-larger

stack_top-IsValue : IsValue (relocatable_value (rel (pos 3) 0))
stack_top-IsValue =
    get-IsValue memory (rel (pos 1) 1) (relocatable_value (rel (pos 3) 0)) memory-IsValid
      stack_value

seven_reads : get_value (new (int 7)) ≡ some (int 7)
seven_reads = get_value-new (int 7) (omega arith)

abbrev high : MaybeRelocatable
high = relocatable_value (rel (pos 1) 9)

high-IsValue : IsValue high
high-IsValue = record { segment = omega arith; offset = omega arith }

low-IsValue : IsValue (int 4)
low-IsValue = omega arith

high_low : sub high (int 4) ≡ ok (relocatable_value (rel (pos 1) 5))
unfolding sub
high_low = refl

high_low_sum : add (relocatable_value (rel (pos 1) 5)) (int 4) ≡ ok high
high_low_sum =
    add-sub high (int 4) (relocatable_value (rel (pos 1) 5)) high-IsValue low-IsValue high_low
