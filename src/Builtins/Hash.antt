-- ===== src/Builtins/Hash.antt =====
-- vm/src/vm/runners/builtin_runner/hash.rs: an instance is x, y, pedersen(x, y).
use cairo_vm.Base.{
  ℕ, ◌+◌, ◌-◌, ◌%◌, Bool, true, false, not, ◌||◌, Option, none, some, List, ◌==◌, if◌then◌else◌,
  get_elem?, set, grow,
}
use cairo_vm.Types.Value.{Relocatable, rel, MaybeRelocatable, int}
use cairo_vm.Builtins.Runner.{HashOps}

-- `CELLS_PER_HASH`
abbrev cells_per_hash : ℕ
cells_per_hash = 3

abbrev is_true : Option Bool → Bool
is_true none = false
is_true (some b) = b

-- The offset is recorded once its hash has been computed.
abbrev verify : List Bool → ℕ → List Bool
verify verified offset = set (grow verified (offset + 1) false) offset true

module _ ⦃H : HashOps⦄ where
  abbrev hash_cells :
      List Bool
      → ℕ
      → Option MaybeRelocatable
      → Option MaybeRelocatable
      → Option MaybeRelocatable × List Bool
  hash_cells verified offset (some (int a)) (some (int b)) =
      (some (int (H.pedersen b a)), verify verified offset)
  hash_cells verified offset _ _ = (none, verified)

  -- Only the output cell is deduced, and only until it has been deduced once.
  unfoldable pub deduce_memory_cell :
      List Bool
      → (Relocatable → Option MaybeRelocatable)
      → Relocatable
      → Option MaybeRelocatable × List Bool
  deduce_memory_cell verified read address =
      if not (address.offset % cells_per_hash == 2) || is_true (get_elem? verified address.offset)
      then (none, verified)
      else hash_cells verified address.offset
          (read (rel address.segment_index (address.offset - 1)))
          (read (rel address.segment_index (address.offset - 2)))
