-- ===== src/Builtins/Bitwise.antt =====
-- vm/src/vm/runners/builtin_runner/bitwise.rs: an instance is x, y, x & y, x ^ y, x | y.
use Prim.Native.Nat.{bit_and, bit_or, bit_xor}
use cairo_vm.Base.{ℕ, ◌/◌, ◌%◌, ◌^◌, Option, none, some, leb, ◌==◌, if◌then◌else◌}
use cairo_vm.Base.Result.{Result, ok, err, ◌>>=◌, map_err}
use cairo_vm.Types.Felt.{Felt, FeltOps, Words, words}
use cairo_vm.Types.Value.{Relocatable, MaybeRelocatable, int}
use cairo_vm.Types.Errors.{MemoryError, RunnerError}
use cairo_vm.Types.Relocatable.{add_offset, sub_offset}
use cairo_vm.Memory.Reads.{integer_of}

-- `CELLS_PER_BITWISE` and `TOTAL_N_BITS`.
abbrev cells_per_bitwise : ℕ
cells_per_bitwise = 5

abbrev total_n_bits : ℕ
total_n_bits = 251

abbrev zip_limbs : (ℕ → ℕ → ℕ) → Words → Words → Words
zip_limbs f x y = words (f x.w0 y.w0) (f x.w1 y.w1) (f x.w2 y.w2) (f x.w3 y.w3)

abbrev operation : ℕ → Option (ℕ → ℕ → ℕ)
operation index =
    if index == 2
    then some bit_and
    else if index == 3
    then some bit_xor
    else if index == 4
    then some bit_or
    else none

module _ ⦃F : FeltOps⦄ where
  -- The five leading bits of the last limb must be clear: the felt is below 2^251.
  abbrev to_limbs : Relocatable → Felt → Result RunnerError Words
  to_limbs addr x =
      if (F.to_le_digits x).w3 / 2 ^ 59 == 0
      then ok (F.to_le_digits x)
      else err (RunnerError.integer_bigger_than_power_of_two addr total_n_bits x)

  abbrev combine :
      ℕ
      → (x_addr y_addr : Relocatable) → Result MemoryError Felt
      → Result MemoryError Felt
      → Result RunnerError (Option MaybeRelocatable)
  combine index x_addr y_addr (ok x) (ok y) = do
    limbs_x ← to_limbs x_addr x
    limbs_y ← to_limbs y_addr y
    ok (elim (operation index) [
      | none ↦ none
      | some f ↦ some (int (F.from_bytes_le_slice (zip_limbs f limbs_x limbs_y)))
    ])
  combine index x_addr y_addr _ _ = ok none

  unfoldable pub deduce_memory_cell :
      (Relocatable → Option MaybeRelocatable)
      → Relocatable
      → Result RunnerError (Option MaybeRelocatable)
  deduce_memory_cell read address =
      let index = address.offset % cells_per_bitwise in
      if leb index 1
      then ok none
      else map_err RunnerError.math (sub_offset address index) >>= λ x_addr.
          map_err RunnerError.math (add_offset x_addr 1) >>= λ y_addr.
          combine index x_addr y_addr (integer_of x_addr (read x_addr))
            (integer_of y_addr (read y_addr))
