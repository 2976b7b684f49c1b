-- ===== src/Builtins/Security.antt =====
-- vm/src/vm/runners/builtin_runner/mod.rs: the security checks on the segment of a builtin.
pub mod Inputs
use cairo_vm.Base.{
  ℕ, zero, suc, ◌+◌, ◌-◌, ◌*◌, ◌/◌, ◌%◌, ◌≤◌, ◌<◌, ◌≡◌, ◌≢◌, refl, sym, ap, ◌∙◌, Bool, true, false,
  not, ◌&&◌, Option, none, some, List, [], ◌∷◌, ◌++◌, arith, ltb, leb, ◌==◌, if◌then◌else◌, is_some,
  length, get_elem?, if-eq_then, if-eq_else, Bool-cases, inl, inr, map,
}
use cairo_vm.Base.Int.{pos}
use cairo_vm.Base.Result.{Result, ok, err, ◌>>=◌, bind-ok-elim}
use cairo_vm.Types.Felt.{FeltOps}
use cairo_vm.Types.Value.{Relocatable, rel, MaybeRelocatable}
use native.Mathlib.Nat.{le-div_iff_mul-le, le_refl, le_trans}
use cairo_vm.Types.BuiltinName.{BuiltinName}
use cairo_vm.Types.Errors.{MemoryError, VirtualMachineError}
use cairo_vm.Memory.Cell.{MemoryCell, is_none}
use cairo_vm.Memory.Store.{Segment}
use cairo_vm.Builtins.Runner.{
  BuiltinRunner, bitwise, ec_op, hash, output, range_check, keccak, signature, poseidon,
  segment_arena, mod_builtin, base, name, HashOps,
}
use cairo_vm.Builtins.Usage.{cells_per_instance, n_input_cells}
use cairo_vm.Vm.State.{VirtualMachine}
use cairo_vm.Vm.EndRun.{verify_auto_deductions_for_addr}

-- Is there a value at the offset?
unfoldable pub is_set : Segment → ℕ → Bool
unfolding is_none
is_set segment offset = elim (get_elem? segment offset) [ none ↦ false | some c ↦ not (is_none c) ]

pub count_set : Segment → ℕ
unfolding is_none
count_set [] = 0
count_set (c ∷ cs) = let rest = count_set cs in if is_none c then rest else suc rest

-- The offsets from `start` on, `n` of them, that have no value.
pub unset_from : Segment → ℕ → ℕ → List ℕ
unfolding is_set
unset_from segment start zero = []
unset_from segment start (suc n) =
    let rest = unset_from segment (suc start) n in
    if is_set segment start then rest else start ∷ rest

-- The unset offsets of the cells `first` … `first + width - 1` of the instances i, i + 1, ….
pub unset_cells : Segment → (cells first width : ℕ) → ℕ → ℕ → List ℕ
unfolding unset_from
unset_cells segment cells first width i zero = []
unset_cells segment cells first width i (suc n) =
    unset_from segment (cells * i + first) width ++ unset_cells segment cells first width (suc i) n

pub instances : ℕ → ℕ → ℕ → ℕ
instances offset_max offset_len cells = if offset_len == 0 then 0 else offset_max / cells + 1

pub guard_empty : BuiltinRunner → List ℕ → Result VirtualMachineError (Unit {0})
unfolding name
guard_empty b [] = ok tt
guard_empty b (o ∷ os) =
    err
      (VirtualMachineError.memory (MemoryError.missing_memory_cells_with_offsets (name b) (o ∷ os)))

module _ ⦃F : FeltOps⦄ ⦃H : HashOps⦄ where
  -- The deductions at the given offsets. The cache of the runner is passed along.
  pub verify_offsets :
      VirtualMachine → ℕ → List ℕ → BuiltinRunner → Result VirtualMachineError BuiltinRunner
  unfolding verify_auto_deductions_for_addr
  verify_offsets vm index [] b = ok b
  verify_offsets vm index (o ∷ os) b =
      verify_auto_deductions_for_addr vm (rel (pos index) o) b >>= λ b'.
      verify_offsets vm index os b'

  -- The checks of a segment with `n` instances.
  pub check_instances :
      BuiltinRunner → VirtualMachine → Segment → ℕ → Result VirtualMachineError BuiltinRunner
  unfolding unset_cells guard_empty verify_offsets cells_per_instance n_input_cells name base
  check_instances b vm segment n =
      let cells = cells_per_instance b in
      let inputs = n_input_cells b in
      if ltb (count_set segment / inputs) n
      then err (VirtualMachineError.memory (MemoryError.missing_memory_cells (name b)))
      else (guard_empty b (unset_cells segment cells 0 inputs 0 n) >>= λ t.
          verify_offsets vm (base b) (unset_cells segment cells inputs (cells - inputs) 0 n) b)

  pub check_segment :
      BuiltinRunner → VirtualMachine → Option Segment → Result VirtualMachineError BuiltinRunner
  unfolding check_instances instances count_set cells_per_instance
  check_segment b vm none = ok b
  check_segment b vm (some []) = ok b
  check_segment b vm (some (c ∷ cs)) =
      check_instances b vm (c ∷ cs)
        (instances (length cs) (count_set (c ∷ cs)) (cells_per_instance b))

  -- `run_security_checks`. The additional checks of the modular builtins are an argument.
  unfoldable pub run_security_checks :
      (mod_checks : BuiltinRunner → VirtualMachine → Result VirtualMachineError (Unit {0}))
      → BuiltinRunner
      → VirtualMachine
      → Result VirtualMachineError BuiltinRunner
  unfolding check_segment base
  run_security_checks mod_checks (output c) vm = ok (output c)
  run_security_checks mod_checks (segment_arena c o) vm = ok (segment_arena c o)
  run_security_checks mod_checks (mod_builtin c t) vm =
      mod_checks (mod_builtin c t) vm >>= λ checked.
      check_segment (mod_builtin c t) vm (get_elem? vm.segments.memory.data_segments c.base)
  run_security_checks mod_checks b vm =
      check_segment b vm (get_elem? vm.segments.memory.data_segments (base b))
