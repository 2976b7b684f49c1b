-- ===== src/Builtins/Poseidon.antt =====
-- vm/src/vm/runners/builtin_runner/poseidon.rs: an instance is three inputs and three outputs.
use cairo_vm.Base.{ℕ, ◌%◌, Option, none, some, List, [], ◌∷◌, ltb, if◌then◌else◌}
use cairo_vm.Base.Result.{Result, ok, err, ◌>>=◌, map_err}
use cairo_vm.Types.Felt.{Felt}
use cairo_vm.Types.Value.{Relocatable, MaybeRelocatable, relocatable_value, int, eqb_rel}
use cairo_vm.Types.BuiltinName.{BuiltinName}
use cairo_vm.Types.Errors.{RunnerError}
use cairo_vm.Types.Relocatable.{add_offset, sub_offset}
use cairo_vm.Builtins.Runner.{HashOps}

-- `CELLS_PER_POSEIDON` and `INPUT_CELLS_PER_POSEIDON`.
abbrev cells_per_poseidon : ℕ
cells_per_poseidon = 6

abbrev input_cells_per_poseidon : ℕ
input_cells_per_poseidon = 3

-- `HashMap<Relocatable, Felt252>`: the newest entry for an address comes first.
abbrev pub Cache : Type 0
Cache = List (Relocatable × Felt)

unfoldable pub cached : Cache → Relocatable → Option Felt
cached [] a = none
cached ((b, x) ∷ cache) a = if eqb_rel b a then some x else cached cache a

abbrev value : Option Felt → Option MaybeRelocatable
value none = none
value (some x) = some (int x)

abbrev felt_at :
    (Relocatable → Option MaybeRelocatable) → Relocatable → ℕ → Result RunnerError (Option Felt)
felt_at read first i = do
  a ← map_err RunnerError.math (add_offset first i)
  elim (read a) [
    | none ↦ ok none
    | some v ↦ elim v [
      | int x ↦ ok (some x)
      | relocatable_value _ ↦ err (RunnerError.builtin_expected_integer BuiltinName.poseidon a)
    ]
  ]

-- The loop over the inputs: it stops at the first that is missing.
abbrev inputs :
    (Relocatable → Option MaybeRelocatable)
    → Relocatable
    → Result RunnerError (Option (Felt × Felt × Felt))
inputs read first = felt_at read first 0 >>= elim [
  | none ↦ ok none
  | some x ↦ felt_at read first 1 >>= elim [
    | none ↦ ok none
    | some y ↦ felt_at read first 2 >>= elim [ none ↦ ok none | some z ↦ ok (some (x, y, z)) ]
  ]
]

module _ ⦃H : HashOps⦄ where
  -- The three outputs are put into the cache, and the one at the address is read from it.
  abbrev permute :
      Cache
      → Relocatable
      → Relocatable
      → Felt × Felt × Felt
      → Result RunnerError (Option MaybeRelocatable × Cache)
  permute cache address output state =
      let out = H.hades_permutation state in
      map_err RunnerError.math (add_offset output 0) >>= λ a0.
      map_err RunnerError.math (add_offset output 1) >>= λ a1.
      map_err RunnerError.math (add_offset output 2) >>= λ a2.
      let cache' = (a2, out.2) ∷ (a1, out.1) ∷ (a0, out.0) ∷ cache in
      ok (value (cached cache' address), cache')

  unfoldable pub deduce_memory_cell :
      Cache
      → (Relocatable → Option MaybeRelocatable)
      → Relocatable
      → Result RunnerError (Option MaybeRelocatable × Cache)
  unfolding cached
  deduce_memory_cell cache read address =
      let index = address.offset % cells_per_poseidon in
      if ltb index input_cells_per_poseidon then ok (none, cache) else elim (cached cache address) [
        | some x ↦ ok (some (int x), cache)
        | none ↦ map_err RunnerError.math (sub_offset address index) >>= λ first.
            map_err RunnerError.math (add_offset first input_cells_per_poseidon) >>= λ output.
            inputs read first
            >>= elim [ none ↦ ok (none, cache) | some state ↦ permute cache address output state ]
      ]
