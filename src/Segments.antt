-- ===== src/Segments.antt =====
-- vm/src/vm/vm_memory/memory_segments.rs: the segment manager.
pub mod Load
pub mod Layout
use cairo_vm.Base.{
  ℕ, zero, suc, ◌+◌, ◌-◌, ◌≡◌, Bool, true, false, not, ◌&&◌, Option, none, some, List, [], ◌∷◌,
  ◌++◌, arith, ltb, leb, ◌==◌, if◌then◌else◌, is_some, word, wrapping_add, length, get_elem?, set,
  grow, map, max,
}
use cairo_vm.Base.Int.{ℤ, pos, negsuc}
use cairo_vm.Base.Result.{Result, ok, err, ◌>>=◌, ◌>>◌, guard, map_err, ok_or, to_option, and_then}
use cairo_vm.Types.Felt.{Felt, FeltOps}
use cairo_vm.Types.Value.{Relocatable, rel, MaybeRelocatable, relocatable_value, int}
use cairo_vm.Types.Errors.{MathError, MemoryError}
use cairo_vm.Types.Relocatable.{add_offset}
use cairo_vm.Memory.Cell.{MemoryCell, new}
use cairo_vm.Memory.Store.{Memory, Segment, new_memory, insert}
use cairo_vm.Memory.Access.{get_amount_of_accessed_addresses_for_segment}

pub record MemorySegmentManager : Type 0 where
  pub segment_sizes : List (ℕ × ℕ)
  pub segment_used_sizes : Option (List ℕ)
  pub memory : Memory
  pub public_memory_offsets : List (ℕ × List (ℕ × ℕ))
  pub zero_segment_index : ℕ
  pub zero_segment_size : ℕ

-- `MemorySegmentManager::new`
abbrev pub new_segments : MemorySegmentManager
new_segments = record {
  segment_sizes = [];
  segment_used_sizes = none;
  memory = new_memory;
  public_memory_offsets = [];
  zero_segment_index = 0;
  zero_segment_size = 0;
}

-- `HashMap<usize, V>` as an association list: an insertion replaces.
module _ {ℓ} {V : Type ℓ} where
  unfoldable pub find : List (ℕ × V) → ℕ → Option V
  find [] k = none
  find ((j, v) ∷ m) k = if j == k then some v else find m k

  unfoldable pub put : List (ℕ × V) → ℕ → V → List (ℕ × V)
  put [] k v = (k, v) ∷ []
  put ((j, w) ∷ m) k v = if j == k then (k, v) ∷ m else (j, w) ∷ put m k v

unfoldable pub num_segments : MemorySegmentManager → ℕ
num_segments s = length s.memory.data_segments

unfoldable pub num_temp_segments : MemorySegmentManager → ℕ
num_temp_segments s = length s.memory.temp_data

-- `add`: the new segment's index is the number of segments before.
unfoldable pub add : MemorySegmentManager → MemorySegmentManager × Relocatable
add s =
    let m = s.memory in
    let segments = m.data_segments ++ [] ∷ [] in
    (record s { memory = record m { data_segments = segments } }, rel (pos (length segments - 1)) 0)

-- `add_temporary_segment`: indices run from -1 down.
unfoldable pub add_temporary_segment : MemorySegmentManager → MemorySegmentManager × Relocatable
add_temporary_segment s =
    let m = s.memory in
    let segments = m.temp_data ++ [] ∷ [] in
    (record s { memory = record m { temp_data = segments } }, rel (negsuc (length segments - 1)) 0)

-- `compute_effective_sizes`: the sizes are kept once computed.
abbrev effective_sizes : Option (List ℕ) → Memory → List ℕ
effective_sizes (some sizes) m = sizes
effective_sizes none m = map length m.data_segments

unfoldable pub compute_effective_sizes : MemorySegmentManager → MemorySegmentManager
compute_effective_sizes s = record s {
  segment_used_sizes = some (effective_sizes s.segment_used_sizes s.memory);
}

unfoldable pub get_segment_used_size : MemorySegmentManager → ℕ → Option ℕ
get_segment_used_size s i = and_then s.segment_used_sizes (λ sizes. get_elem? sizes i)

abbrev or_else : Option ℕ → Option ℕ → Option ℕ
or_else none other = other
or_else (some n) other = some n

-- A size that was set by `finalize` comes before the size in use.
unfoldable pub get_segment_size : MemorySegmentManager → ℕ → Option ℕ
unfolding find get_segment_used_size
get_segment_size s i = or_else (find s.segment_sizes i) (get_segment_used_size s i)

-- The loop of `relocate_segments`; `base` is the last address that was pushed on the table. The
-- entry past the last segment is popped in the source and is not made here.
unfoldable pub relocate_loop : MemorySegmentManager → ℕ → List ℕ → ℕ → Result MemoryError (List ℕ)
relocate_loop s i [] base = ok []
relocate_loop s i (_ ∷ rest) base = do
  size ← ok_or (get_segment_size s i) MemoryError.missing_segment_used_sizes
  table ← relocate_loop s (suc i) rest (wrapping_add base size)
  ok (base ∷ table)

-- The flat memory starts at address 1.
unfoldable pub relocate_segments : MemorySegmentManager → Result MemoryError (List ℕ)
unfolding relocate_loop
relocate_segments s = elim s.segment_used_sizes [
  | none ↦ err MemoryError.missing_segment_used_sizes
  | some sizes ↦ relocate_loop s 0 sizes 1
]

unfoldable pub is_valid_index : ℤ → List ℕ → Result MemoryError Bool
is_valid_index (pos i) sizes = ok (ltb i (length sizes))
is_valid_index (negsuc n) sizes = err (MemoryError.address_in_temporary_segment (negsuc n))

unfoldable pub is_valid_memory_value :
    MemorySegmentManager → MaybeRelocatable → Result MemoryError Bool
unfolding is_valid_index
is_valid_memory_value s v = elim s.segment_used_sizes [
  | none ↦ err MemoryError.missing_segment_used_sizes
  | some sizes ↦ elim v [
    | int _ ↦ ok true
    | relocatable_value r ↦ is_valid_index r.segment_index sizes
  ]
]

unfoldable pub has_zero_segment : MemorySegmentManager → Bool
has_zero_segment s = not (s.zero_segment_index == 0)

-- `finalize`: a size if one is given, and the public memory, empty if none is given.
abbrev sized : Option ℕ → ℕ → List (ℕ × ℕ) → List (ℕ × ℕ)
sized none i sizes = sizes
sized (some n) i sizes = put sizes i n

abbrev offsets_or_empty : Option (List (ℕ × ℕ)) → List (ℕ × ℕ)
offsets_or_empty none = []
offsets_or_empty (some offsets) = offsets

unfoldable pub finalize :
    MemorySegmentManager → Option ℕ → ℕ → Option (List (ℕ × ℕ)) → MemorySegmentManager
unfolding put
finalize s size i public = record s {
  segment_sizes = sized size i s.segment_sizes;
  public_memory_offsets = put s.public_memory_offsets i (offsets_or_empty public);
}

unfoldable pub finalize_zero_segment : MemorySegmentManager → MemorySegmentManager
unfolding finalize has_zero_segment
finalize_zero_segment s =
    if has_zero_segment s
    then record (finalize s (some s.zero_segment_size) s.zero_segment_index none) {
      zero_segment_index = 0;
      zero_segment_size = 0;
    }
    else s

module _ ⦃F : FeltOps⦄ where
  -- The loop of `load_data`. The values are written from the last to the first, so the rest of
  -- the data is written before its head.
  unfoldable pub load_from :
      Relocatable → ℕ → List MaybeRelocatable → Memory → Result MemoryError Memory
  load_from ptr n [] m = ok m
  load_from ptr n (v ∷ vs) m = do
    m' ← load_from ptr (suc n) vs m
    addr ← map_err MemoryError.math (add_offset ptr n)
    insert m' addr v

  unfoldable pub load_data :
      MemorySegmentManager
      → Relocatable
      → List MaybeRelocatable
      → Result MemoryError (MemorySegmentManager × Relocatable)
  unfolding load_from
  load_data s ptr vs = do
    m ← load_from ptr 0 vs s.memory
    end ← map_err MemoryError.math (add_offset ptr (length vs))
    ok (record s { memory = m }, end)
