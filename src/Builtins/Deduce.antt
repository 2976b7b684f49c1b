-- ===== src/Builtins/Deduce.antt =====
-- vm/src/vm/runners/builtin_runner/mod.rs, `deduce_memory_cell`, and the search for the builtin of
-- an address in vm/src/vm/vm_core.rs. A runner that keeps a cache is returned with its new cache.
use cairo_vm.Base.{Option, none, List, [], ◌∷◌, if◌then◌else◌}
use cairo_vm.Base.Int.{pos, eqb_ℤ}
use cairo_vm.Base.Result.{Result, ok, ◌>>=◌, map_err}
use cairo_vm.Types.Felt.{FeltOps}
use cairo_vm.Types.Value.{Relocatable, MaybeRelocatable}
use cairo_vm.Types.Errors.{RunnerError, VirtualMachineError}
use cairo_vm.Memory.Store.{Memory, get}
use cairo_vm.Builtins.Runner.{HashOps, BuiltinRunner, bitwise, ec_op, hash, keccak, poseidon, base}
use cairo_vm.Builtins.Bitwise
use cairo_vm.Builtins.Hash
use cairo_vm.Builtins.Poseidon

module _ ⦃F : FeltOps⦄ ⦃H : HashOps⦄ where
  unfoldable pub deduce_by :
      BuiltinRunner
      → Relocatable
      → Memory
      → Result RunnerError (Option MaybeRelocatable × BuiltinRunner)
  deduce_by (bitwise c) a m = do v ← Bitwise.deduce_memory_cell (get m) a; ok (v, bitwise c)
  deduce_by (ec_op c) a m = do v ← H.ec_op_deduction (get m) a; ok (v, ec_op c)
  deduce_by (hash c verified) a m =
      let (v, verified') = Hash.deduce_memory_cell verified (get m) a in ok (v, hash c verified')
  deduce_by (keccak c) a m = do v ← H.keccak_deduction (get m) a; ok (v, keccak c)
  deduce_by (poseidon c cache) a m = do
    (v, cache') ← Poseidon.deduce_memory_cell cache (get m) a
    ok (v, poseidon c cache')
  deduce_by b a m = ok (none, b)

  -- The first builtin whose segment the address lies in decides.
  unfoldable pub deduce_memory_cell :
      List BuiltinRunner
      → Relocatable
      → Memory
      → Result VirtualMachineError (Option MaybeRelocatable × List BuiltinRunner)
  unfolding deduce_by base
  deduce_memory_cell [] a m = ok (none, [])
  deduce_memory_cell (b ∷ bs) a m =
      let rest = deduce_memory_cell bs a m >>= λ (v, bs'). ok (v, b ∷ bs') in
      if eqb_ℤ (pos (base b)) a.segment_index
      then (map_err VirtualMachineError.runner_error (deduce_by b a m) >>= λ (v, b').
          ok (v, b' ∷ bs))
      else rest
