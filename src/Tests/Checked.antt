-- ===== src/Tests/Checked.antt =====
-- The theorems on relocation rules and range checks at small memories.
use cairo_vm.Base.{◌+◌, ◌≡◌, refl, false, some, [], ◌∷◌, arith, get_elem?}
use cairo_vm.Base.Int.{pos, negsuc}
use cairo_vm.Base.Result.{Result, ok, err}
use cairo_vm.Types.Value.{Relocatable, rel, relocatable_value, int, IsRelocatable}
use cairo_vm.Types.Errors.{MemoryError}
use cairo_vm.Memory.AddressSet.{contains, extend}
use cairo_vm.Memory.Cell.{get_value, new, empty}
use cairo_vm.Memory.Store.{Memory, get, insert, value_at}
use cairo_vm.Memory.Rules.{
  add_relocation_rule, add_validation_rule, add_relocation_rule-IsValid, get-add_relocation_rule,
}
use cairo_vm.Memory.Valid.{IsValid}
use cairo_vm.Memory.Relocate.{relocate_memory}
use cairo_vm.Memory.Moved.{relocate_memory-get}
use cairo_vm.Builtins.RangeCheck.{validation_rule, add_range_check_rule, Checked, insert-Checked}
use cairo_vm.Tests.Field.{felt_ops}
use cairo_vm.Tests.Machine.{memory}
use cairo_vm.Tests.Valid.{segments_fit-IsValid}

abbrev memory_of : Result MemoryError Memory → Memory
memory_of (ok m) = m
memory_of (err e) = memory

-- `[2, 0]` holds an address of the temporary segment.
abbrev pointing : Memory
pointing = record memory {
  data_segments = [] ∷ [] ∷ (new (relocatable_value (rel (negsuc 0) 3)) ∷ []) ∷ [];
  temp_data = [] ∷ [];
}

abbrev target : Relocatable
target = rel (pos 1) 5

target-IsRelocatable : IsRelocatable target
target-IsRelocatable = record { segment = omega arith; offset = omega arith }

unfoldable ruled : Memory
unfolding add_relocation_rule
ruled = memory_of (add_relocation_rule pointing (rel (negsuc 0) 0) target)

pointing-ruled : add_relocation_rule pointing (rel (negsuc 0) 0) target ≡ ok ruled
unfolding ruled add_relocation_rule
pointing-ruled = refl

pointing-IsValid : IsValid pointing
unfolding get_value new
pointing-IsValid = segments_fit-IsValid pointing refl refl refl

pointing-stored : value_at pointing (rel (pos 2) 0) ≡ some (relocatable_value (rel (negsuc 0) 3))
unfolding value_at get_value new
pointing-stored = refl

get-add_relocation_rule_example :
    get ruled (rel (pos 2) 0) ≡ some (relocatable_value (rel (pos 1) (5 + 3)))
get-add_relocation_rule_example =
    get-add_relocation_rule pointing ruled (rel (pos 2) 0) target 0 3 pointing-ruled pointing-stored
      (omega arith)

-- Segment 2 has a range check of eight parts.
unfoldable guarded : Memory
unfolding add_range_check_rule
guarded = add_range_check_rule memory 2 8

unfoldable checked : Memory
unfolding insert guarded
checked = memory_of (insert guarded (rel (pos 2) 0) (int 65536))

guarded-checked : insert guarded (rel (pos 2) 0) (int 65536) ≡ ok checked
unfolding checked guarded add_range_check_rule add_validation_rule insert get_value new empty
    contains extend get validation_rule
guarded-checked = refl

guarded-rule : get_elem? guarded.validation_rules 2 ≡ some (some (validation_rule 8))
unfolding guarded add_range_check_rule add_validation_rule
guarded-rule = refl

guarded-fresh : contains guarded.validated_addresses (rel (pos 2) 0) ≡ false
unfolding guarded add_range_check_rule add_validation_rule contains
guarded-fresh = refl

insert-Checked_example : Checked 8 checked (rel (pos 2) 0)
insert-Checked_example =
    insert-Checked guarded checked 2 0 8 (int 65536) guarded-rule guarded-fresh guarded-checked

-- The temporary segment has a cell, which moves to the target.
abbrev to_move : Memory
to_move = record pointing {
  temp_data = (new (int 9) ∷ []) ∷ [];
  relocation_rules = (0, target) ∷ [];
}

to_move-IsValid : IsValid to_move
unfolding get_value new add_relocation_rule
to_move-IsValid =
    add_relocation_rule-IsValid (record to_move { relocation_rules = [] }) to_move
      (rel (negsuc 0) 0) target unruled-IsValid target-IsRelocatable to_move-ruled
  where
    unruled-IsValid : IsValid (record to_move { relocation_rules = [] })
    unruled-IsValid = segments_fit-IsValid (record to_move { relocation_rules = [] }) refl refl refl

    to_move-ruled :
        add_relocation_rule (record to_move { relocation_rules = [] }) (rel (negsuc 0) 0) target
        ≡ ok to_move
    to_move-ruled = refl

unfoldable moved : Memory
unfolding relocate_memory
moved = memory_of (relocate_memory to_move)

to_move-moved : relocate_memory to_move ≡ ok moved
unfolding moved relocate_memory get_value new empty insert
to_move-moved = refl

to_move_value : get to_move (rel (pos 2) 0) ≡ some (relocatable_value (rel (pos 1) 8))
unfolding get get_value new
to_move_value = refl

relocate_memory-get_example : get moved (rel (pos 2) 0) ≡ some (relocatable_value (rel (pos 1) 8))
relocate_memory-get_example =
    relocate_memory-get to_move moved 2 0 (relocatable_value (rel (pos 1) 8)) to_move-IsValid
      to_move-moved to_move_value
