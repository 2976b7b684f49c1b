-- ===== src/Builtins/Diluted.antt =====
-- vm/src/vm/runners/builtin_runner: the trace cells in diluted form that the bitwise and the Keccak
-- builtins use.
use cairo_vm.Base.{
  ℕ, zero, suc, ◌+◌, ◌-◌, ◌*◌, true, false, List, [], ◌∷◌, ◌++◌, ltb, if◌then◌else◌, length,
}
use cairo_vm.Base.Result.{Result, ok, err}
use cairo_vm.Types.Errors.{MathError}
use cairo_vm.Math.Division.{safe_div_usize}
use cairo_vm.Builtins.Runner.{BuiltinRunner, bitwise, keccak}

abbrev total_n_bits : ℕ
total_n_bits = 251

-- The bits i + j, …, i + j + left - 1 that the total has.
offsets : ℕ → ℕ → ℕ → List ℕ
offsets zero i j = []
offsets (suc left) i j =
    let rest = offsets left i (suc j) in if ltb (i + j) total_n_bits then (i + j) ∷ rest else rest

-- The rounds of the outer loop from i on. Each adds `stride`, which is not 0, so one round for
-- each bit is enough; the source panics for a stride of 0.
partition_from : ℕ → ℕ → ℕ → ℕ → List ℕ
unfolding offsets
partition_from zero i stride spacing = []
partition_from (suc rounds) i stride spacing = elim (ltb i total_n_bits) [
  | true ↦ offsets spacing i 0 ++ partition_from rounds (i + stride) stride spacing
  | false ↦ []
]

trimmed : ℕ → ℕ → List ℕ → ℕ
trimmed spacing n_bits [] = 0
trimmed spacing n_bits (e ∷ es) =
    let rest = trimmed spacing n_bits es in
    if ltb total_n_bits (e + spacing * (n_bits - 1) + 1) then suc rest else rest

bitwise_units : ℕ → ℕ → ℕ
unfolding partition_from trimmed
bitwise_units spacing n_bits =
    let partition = partition_from total_n_bits 0 (spacing * n_bits) spacing in
    4 * length partition + trimmed spacing n_bits partition

unwrap_or_zero : Result MathError ℕ → ℕ
unwrap_or_zero (ok n) = n
unwrap_or_zero (err e) = 0

unfoldable pub get_used_diluted_check_units : BuiltinRunner → ℕ → ℕ → ℕ
unfolding bitwise_units unwrap_or_zero safe_div_usize
get_used_diluted_check_units (bitwise _) spacing n_bits = bitwise_units spacing n_bits
get_used_diluted_check_units (keccak _) spacing n_bits =
    unwrap_or_zero (safe_div_usize 262144 n_bits)
get_used_diluted_check_units _ spacing n_bits = 0
