-- ===== src/Memory/Reads.antt =====
-- vm/src/vm/vm_memory/memory.rs: typed reads and reads of ranges.
use cairo_vm.Base.{ℕ, zero, suc, Option, List, [], ◌∷◌}
use cairo_vm.Base.Result.{Result, ok, err, ◌>>=◌, map_err, ok_or, to_option, and_then}
use cairo_vm.Types.Felt.{Felt, FeltOps}
use cairo_vm.Types.Value.{Relocatable, MaybeRelocatable, relocatable_value, int}
use cairo_vm.Types.Errors.{MathError, MemoryError}
use cairo_vm.Types.Relocatable.{add_offset}
use cairo_vm.Memory.Store.{Memory, get}

abbrev as_integer : Relocatable → MaybeRelocatable → Result MemoryError Felt
as_integer key (int x) = ok x
as_integer key (relocatable_value _) = err (MemoryError.expected_integer key)

abbrev as_relocatable : Relocatable → MaybeRelocatable → Result MemoryError Relocatable
as_relocatable key (relocatable_value r) = ok r
as_relocatable key (int _) = err (MemoryError.expected_relocatable key)

-- What `get_integer` and `get_relocatable` make of the value that `get` reads.
unfoldable pub integer_of : Relocatable → Option MaybeRelocatable → Result MemoryError Felt
integer_of key v = do w ← ok_or v (MemoryError.unknown_memory_cell key); as_integer key w

unfoldable pub relocatable_of :
    Relocatable → Option MaybeRelocatable → Result MemoryError Relocatable
relocatable_of key v = do w ← ok_or v (MemoryError.unknown_memory_cell key); as_relocatable key w

module _ ⦃F : FeltOps⦄ where
  unfoldable pub get_integer : Memory → Relocatable → Result MemoryError Felt
  unfolding integer_of
  get_integer m key = integer_of key (get m key)

  unfoldable pub get_relocatable : Memory → Relocatable → Result MemoryError Relocatable
  unfolding relocatable_of
  get_relocatable m key = relocatable_of key (get m key)

  -- `to_usize`: a `usize` is a `u64`.
  unfoldable pub get_usize : Memory → Relocatable → Result MemoryError ℕ
  unfolding get_integer
  get_usize m key = do
    x ← get_integer m key
    ok_or (F.to_u64 x) (MemoryError.math (MathError.felt252_to_usize_conversion x))

  -- The loops below count up from `i`, with `n` rounds left.
  unfoldable pub range_from : Memory → Relocatable → ℕ → ℕ → List (Option MaybeRelocatable)
  range_from m addr i zero = []
  range_from m addr i (suc n) =
      and_then (to_option (add_offset addr i)) (get m) ∷ range_from m addr (suc i) n

  unfoldable pub get_range : Memory → Relocatable → ℕ → List (Option MaybeRelocatable)
  unfolding range_from
  get_range m addr size = range_from m addr 0 size

  unfoldable pub continuous_from :
      Memory → Relocatable → ℕ → ℕ → ℕ → Result MemoryError (List MaybeRelocatable)
  continuous_from m addr size i zero = ok []
  continuous_from m addr size i (suc n) = do
    a ← map_err MemoryError.math (add_offset addr i)
    v ← ok_or (get m a) (MemoryError.get_range_memory_gap addr size)
    vs ← continuous_from m addr size (suc i) n
    ok (v ∷ vs)

  -- Fails at the first missing cell, or at the first address that overflows.
  unfoldable pub get_continuous_range :
      Memory → Relocatable → ℕ → Result MemoryError (List MaybeRelocatable)
  unfolding continuous_from
  get_continuous_range m addr size = continuous_from m addr size 0 size

  unfoldable pub integers_from : Memory → Relocatable → ℕ → ℕ → Result MemoryError (List Felt)
  integers_from m addr i zero = ok []
  integers_from m addr i (suc n) = do
    a ← map_err MemoryError.math (add_offset addr i)
    x ← get_integer m a
    xs ← integers_from m addr (suc i) n
    ok (x ∷ xs)

  unfoldable pub get_integer_range : Memory → Relocatable → ℕ → Result MemoryError (List Felt)
  unfolding integers_from
  get_integer_range m addr size = integers_from m addr 0 size
