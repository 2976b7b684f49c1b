-- ===== src/Tests/Tables.antt =====
-- The theorems on segments at a manager with two segments.
use cairo_vm.Base.{ℕ, ◌+◌, ◌<◌, ◌≡◌, refl, some, List, [], ◌∷◌, arith, word}
use cairo_vm.Base.Int.{pos}
use cairo_vm.Base.Result.{Result, ok, err}
use cairo_vm.Types.Value.{Relocatable, rel, MaybeRelocatable, relocatable_value, int}
use cairo_vm.Types.Errors.{MemoryError}
use cairo_vm.Types.Relocatable.{relocate_address}
use cairo_vm.Memory.Cell.{get_value, new, empty}
use cairo_vm.Memory.Store.{insert}
use cairo_vm.Segments.{
  MemorySegmentManager, new_segments, relocate_segments, get_segment_size, load_data,
}
use cairo_vm.Segments.Load.{Loaded, AllValues, load_data-Loaded}
use cairo_vm.Segments.Layout.{total_size, InSegment, relocate_address_injective}
use cairo_vm.Tests.Field.{felt_ops}
use cairo_vm.Tests.Machine.{memory}

abbrev sizes : List ℕ
sizes = 7 ∷ 2 ∷ []

abbrev manager : MemorySegmentManager
manager = record new_segments { segment_used_sizes = some sizes }

manager-table : relocate_segments manager ≡ ok (1 ∷ 8 ∷ [])
unfolding relocate_segments get_segment_size
manager-table = refl

manager-fits : 1 + total_size manager 0 sizes < word
unfolding total_size get_segment_size
manager-fits = omega arith

moved : relocate_address (rel (pos 1) 1) (1 ∷ 8 ∷ []) ≡ ok 9
unfolding relocate_address
moved = refl

inside : InSegment manager 1 1
unfolding get_segment_size
inside = record { size = 2; sized = refl; within = omega arith }

relocate_address_injective_example : rel (pos 1) 1 ≡ rel (pos 1) 1
relocate_address_injective_example =
    relocate_address_injective manager sizes (1 ∷ 8 ∷ []) refl manager-fits manager-table 1 1 1 1 9
      moved moved inside inside

abbrev segments : MemorySegmentManager
segments = record new_segments { memory = memory }

abbrev segments_of_result :
    Result MemoryError (MemorySegmentManager × Relocatable) → MemorySegmentManager
segments_of_result (ok (s, end)) = s
segments_of_result (err e) = segments

abbrev words_in : List MaybeRelocatable
words_in = int 7 ∷ relocatable_value (rel (pos 0) 3) ∷ []

unfoldable loaded : MemorySegmentManager
unfolding load_data
loaded = segments_of_result (load_data segments (rel (pos 2) 1) words_in)

segments-loaded : load_data segments (rel (pos 2) 1) words_in ≡ ok (loaded, rel (pos 2) 3)
unfolding loaded load_data get_value new empty insert
segments-loaded = refl

words_in-AllValues : AllValues words_in
words_in-AllValues = (omega arith, (record { segment = omega arith; offset = omega arith }, tt))

load_data-Loaded_example :
    Loaded (rel (pos 2) 1) 0 words_in segments.memory loaded.memory
    × (rel (pos 2) 3 ≡ rel (pos 2) (1 + 2))
load_data-Loaded_example =
    load_data-Loaded segments loaded (rel (pos 2) 1) (rel (pos 2) 3) words_in words_in-AllValues
      segments-loaded
