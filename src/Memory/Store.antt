-- ===== src/Memory/Store.antt =====
-- vm/src/vm/vm_memory/memory.rs, `Memory`: its state, `insert` and `get`, relocation rules and
-- validation rules, and `from_relocatable_to_indexes` of vm/src/utils.rs.
use cairo_vm.Base.{
  ℕ, ◌+◌, ◌-◌, ◌^◌, Option, none, some, List, [], ◌∷◌, leb, ◌==◌, if◌then◌else◌, length, get_elem?,
  set, grow,
}
use cairo_vm.Base.Int.{ℤ, pos, negsuc}
use cairo_vm.Base.Result.{Result, ok, err, ◌>>=◌, map_err, ok_or, to_option, and_then}
use cairo_vm.Types.Felt.{FeltOps}
use cairo_vm.Types.Value.{Relocatable, MaybeRelocatable, relocatable_value, int, eqb}
use cairo_vm.Types.Errors.{MathError, MemoryError}
use cairo_vm.Types.Relocatable.{add_offset}
use cairo_vm.Memory.Cell.{MemoryCell, empty, new, get_value, mark_accessed}
use cairo_vm.Memory.AddressSet.{AddressSet, contains, extend}

abbrev pub Segment : Type 0
Segment = List MemoryCell

-- What a validation rule sees of the memory is its reading function, `Memory::get`.
abbrev pub ValidationRule : Type 0
ValidationRule =
    (Relocatable → Option MaybeRelocatable) → Relocatable → Result MemoryError (List Relocatable)

-- `HashMap<usize, Relocatable>`, keyed by the index of a temporary segment.
abbrev pub RelocationRules : Type 0
RelocationRules = List (ℕ × Relocatable)

pub record Memory : Type 0 where
  pub data_segments : List Segment
  pub temp_data : List Segment
  pub relocation_rules : RelocationRules
  pub validated_addresses : AddressSet
  pub validation_rules : List (Option ValidationRule)

-- `Memory::new`
abbrev pub new_memory : Memory
new_memory = record {
  data_segments = [];
  temp_data = [];
  relocation_rules = [];
  validated_addresses = [];
  validation_rules = [];
}

-- The first component of `from_relocatable_to_indexes`: temporary segment -1 has index 0.
abbrev pub segment_key : ℤ → ℕ
segment_key (pos n) = n
segment_key (negsuc n) = n

abbrev pub from_relocatable_to_indexes : Relocatable → ℕ × ℕ
from_relocatable_to_indexes r = (segment_key r.segment_index, r.offset)

-- Temporary segments have negative indices.
abbrev pub segments_of : Memory → ℤ → List Segment
segments_of m (pos _) = m.data_segments
segments_of m (negsuc _) = m.temp_data

abbrev pub with_segments : Memory → ℤ → List Segment → Memory
with_segments m (pos _) ss = record m { data_segments = ss }
with_segments m (negsuc _) ss = record m { temp_data = ss }

unfoldable pub find_rule : RelocationRules → ℕ → Option Relocatable
find_rule [] k = none
find_rule ((j, r) ∷ rules) k = if j == k then some r else find_rule rules k

abbrev relocated_by : Relocatable → Option Relocatable → Result MathError Relocatable
relocated_by addr none = ok addr
relocated_by addr (some base) = add_offset base addr.offset

abbrev relocate_segment : RelocationRules → ℤ → Relocatable → Result MathError Relocatable
relocate_segment rules (pos _) addr = ok addr
relocate_segment rules (negsuc n) addr = relocated_by addr (find_rule rules n)

-- `Memory::relocate_address` and `relocate_value` of a `Relocatable`.
unfoldable pub relocate_address : RelocationRules → Relocatable → Result MemoryError Relocatable
unfolding add_offset find_rule
relocate_address rules addr =
    map_err MemoryError.math (relocate_segment rules addr.segment_index addr)

unfoldable pub relocate_value :
    RelocationRules → MaybeRelocatable → Result MemoryError MaybeRelocatable
unfolding relocate_address
relocate_value rules (int x) = ok (int x)
relocate_value rules (relocatable_value r) = do
  r' ← relocate_address rules r
  ok (relocatable_value r')

-- `Vec` holds at most `isize::MAX` bytes, and a cell takes 32. A reservation up to that succeeds.
abbrev pub max_segment_len : ℕ
max_segment_len = 2 ^ 58 - 1

-- Room for a cell at the offset; new cells before it are empty (a memory gap).
unfoldable pub make_room : Segment → ℕ → Result MemoryError Segment
make_room segment offset =
    if leb (length segment) offset
    then if leb (offset + 1) max_segment_len
      then ok (grow segment (offset + 1) empty)
      else err MemoryError.vec_capacity_exceeded
    else ok segment

module _ ⦃F : FeltOps⦄ where
  abbrev pub cell_at : Memory → Relocatable → Option MemoryCell
  cell_at m r =
      and_then (get_elem? (segments_of m r.segment_index) (segment_key r.segment_index))
        (λ segment. get_elem? segment r.offset)

  -- The value in a cell, before relocation.
  unfoldable pub value_at : Memory → Relocatable → Option MaybeRelocatable
  value_at m r = and_then (cell_at m r) get_value

  -- `Memory::get`: a value whose relocation overflows reads as missing.
  unfoldable pub get : Memory → Relocatable → Option MaybeRelocatable
  unfolding value_at relocate_value
  get m r = and_then (value_at m r) (λ v. to_option (relocate_value m.relocation_rules v))

  abbrev pub validate_by :
      Option (Option ValidationRule) → Memory → Relocatable → Result MemoryError Memory
  validate_by (some (some rule)) m addr =
      if contains m.validated_addresses addr
      then ok m
      else rule (get m) addr >>= λ valid.
          ok (record m { validated_addresses = extend m.validated_addresses valid })
  validate_by (some none) m addr = ok m
  validate_by none m addr = ok m

  abbrev pub rule_for : List (Option ValidationRule) → ℤ → Option (Option ValidationRule)
  rule_for rules (pos i) = get_elem? rules i
  rule_for rules (negsuc n) = none

  unfoldable pub validate_memory_cell : Memory → Relocatable → Result MemoryError Memory
  unfolding get contains extend
  validate_memory_cell m addr = validate_by (rule_for m.validation_rules addr.segment_index) m addr

  -- The cell is there, since `make_room` came before.
  abbrev write_over :
      Relocatable → MaybeRelocatable → Segment → Option MemoryCell → Result MemoryError Segment
  write_over key val segment none = err MemoryError.vec_capacity_exceeded
  write_over key val segment (some c) = elim (get_value c) [
    | none ↦ ok (set segment key.offset (new val))
    | some current ↦
        if eqb current val
        then ok segment
        else err (MemoryError.inconsistent_memory key current val)
  ]

  unfoldable pub write_cell : Relocatable → MaybeRelocatable → Segment → Result MemoryError Segment
  write_cell key val segment = write_over key val segment (get_elem? segment key.offset)

  -- `Memory::insert`: memory is written once; a second write must agree with the first.
  unfoldable pub insert : Memory → Relocatable → MaybeRelocatable → Result MemoryError Memory
  unfolding make_room write_cell validate_memory_cell
  insert m key val = do
    let index = segment_key key.segment_index
    let segments = segments_of m key.segment_index
    segment ←
        ok_or (get_elem? segments index) (MemoryError.unallocated_segment index (length segments))
    roomy ← make_room segment key.offset
    written ← write_cell key val roomy
    validate_memory_cell (with_segments m key.segment_index (set segments index written)) key

  -- `Memory::mark_as_accessed`: no cell, no change.
  abbrev pub mark_row : List Segment → ℕ → ℕ → List Segment
  mark_row segments i j = elim (get_elem? segments i) [
    | none ↦ segments
    | some segment ↦ elim (get_elem? segment j) [
      | none ↦ segments
      | some c ↦ set segments i (set segment j (mark_accessed c))
    ]
  ]

  unfoldable pub mark_as_accessed : Memory → Relocatable → Memory
  mark_as_accessed m addr =
      with_segments m addr.segment_index
        (mark_row (segments_of m addr.segment_index) (segment_key addr.segment_index) addr.offset)

  unfoldable pub insert_as_accessed :
      Memory → Relocatable → MaybeRelocatable → Result MemoryError Memory
  unfolding insert mark_as_accessed
  insert_as_accessed m key val = do m' ← insert m key val; ok (mark_as_accessed m' key)
