-- ===== src/Builtins/Allocated.antt =====
-- vm/src/vm/runners/builtin_runner/mod.rs: the cells that a builtin has allocated, which the number
-- of steps gives, and the check that they are enough.
use cairo_vm.Base.{
  ℕ, zero, suc, ◌*◌, ◌/◌, ◌≤◌, ◌≡◌, true, false, Option, none, some, ltb, ◌==◌, if◌then◌else◌,
  arith,
}
use cairo_vm.Base.Result.{Result, ok, err, ◌>>=◌, map_err, bind-ok-elim, ok-injective}
use cairo_vm.Types.Errors.{MemoryError, InsufficientAllocatedCellsError}
use cairo_vm.Math.Division.{safe_div_usize}
use cairo_vm.Builtins.Runner.{
  BuiltinRunner, bitwise, ec_op, hash, output, range_check, keccak, signature, poseidon,
  segment_arena, mod_builtin, common, name,
}
use cairo_vm.Builtins.Usage.{div_ceil, cells_per_instance, instances_per_component, get_used_cells}
use cairo_vm.Vm.State.{VirtualMachine}

-- The output and the segment arena have no ratio, also when their fields are set.
ratio : BuiltinRunner → Option ℕ
ratio (output _) = none
ratio (segment_arena _ _) = none
ratio b = (common b).ratio

ratio_den : BuiltinRunner → Option ℕ
ratio_den (range_check c _) = c.ratio_den
ratio_den (mod_builtin c _) = c.ratio_den
ratio_den _ = none

-- `usize::next_power_of_two`: the powers from `power` on, `fuel` of them.
power_from : ℕ → ℕ → ℕ → ℕ
power_from zero power n = power
power_from (suc fuel) power n = elim (ltb power n) [
  | true ↦ power_from fuel (2 * power) n
  | false ↦ power
]

unfoldable pub next_power_of_two : ℕ → ℕ
unfolding power_from
next_power_of_two n = power_from n 1 n

-- In a dynamic layout: as many components as are needed, up to a power of two.
dynamic_instances : BuiltinRunner → ℕ → ℕ
unfolding cells_per_instance instances_per_component next_power_of_two
dynamic_instances b used =
    let per_component = instances_per_component b in
    let needed = used / cells_per_instance b / per_component in
    per_component * (if ltb 0 needed then next_power_of_two needed else 0)

min_step_for : BuiltinRunner → ℕ → ℕ
unfolding instances_per_component ratio_den
min_step_for b r = elim (ratio_den b) [
  | none ↦ r * instances_per_component b
  | some den ↦ div_ceil (r * instances_per_component b) den
]

scaled_steps : BuiltinRunner → ℕ → ℕ
unfolding ratio_den
scaled_steps b steps = elim (ratio_den b) [ none ↦ steps | some den ↦ steps * den ]

static_instances : BuiltinRunner → ℕ → ℕ → Result MemoryError ℕ
unfolding min_step_for scaled_steps name
static_instances b r steps =
    if r == 0
    then ok 0
    else if ltb steps (min_step_for b r)
    then err (
        MemoryError.insufficient_allocated_cells
          (InsufficientAllocatedCellsError.min_step_not_reached (min_step_for b r) (name b)))
    else map_err (λ e. MemoryError.error_calculating_memory_units)
        (safe_div_usize (scaled_steps b steps) r)

allocated_by : BuiltinRunner → VirtualMachine → Option ℕ → Result MemoryError ℕ
unfolding dynamic_instances static_instances get_used_cells
allocated_by b vm none = get_used_cells b vm.segments >>= λ used. ok (dynamic_instances b used)
allocated_by b vm (some r) = static_instances b r vm.current_step

pub get_allocated_instances : BuiltinRunner → VirtualMachine → Result MemoryError ℕ
unfolding allocated_by ratio
get_allocated_instances (output c) vm = ok 0
get_allocated_instances (segment_arena c offset) vm = ok 0
get_allocated_instances b vm = allocated_by b vm (ratio b)

pub get_allocated_memory_units : BuiltinRunner → VirtualMachine → Result MemoryError ℕ
unfolding get_allocated_instances cells_per_instance
get_allocated_memory_units b vm =
    get_allocated_instances b vm >>= λ n. ok (n * cells_per_instance b)

within : BuiltinRunner → ℕ → ℕ → Result MemoryError (ℕ × ℕ)
unfolding name
within b used size =
    if ltb size used
    then err (
        MemoryError.insufficient_allocated_cells
          (InsufficientAllocatedCellsError.builtin_cells (name b) used size))
    else ok (used, size)

checked_size : BuiltinRunner → VirtualMachine → Result MemoryError (ℕ × ℕ)
unfolding get_used_cells get_allocated_memory_units within
checked_size b vm = get_used_cells b vm.segments >>= λ used.
    get_allocated_memory_units b vm >>= λ size. within b used size

unfoldable pub get_used_cells_and_allocated_size :
    BuiltinRunner → VirtualMachine → Result MemoryError (ℕ × ℕ)
unfolding get_used_cells checked_size
get_used_cells_and_allocated_size (output c) vm =
    get_used_cells (output c) vm.segments >>= λ used. ok (used, used)
get_used_cells_and_allocated_size (segment_arena c offset) vm =
    get_used_cells (segment_arena c offset) vm.segments >>= λ used. ok (used, used)
get_used_cells_and_allocated_size b vm = checked_size b vm

unfoldable pub get_used_perm_range_check_units :
    BuiltinRunner → VirtualMachine → Result MemoryError ℕ
unfolding get_used_cells_and_allocated_size
get_used_perm_range_check_units (range_check c n_parts) vm =
    get_used_cells_and_allocated_size (range_check c n_parts) vm >>= λ (used, size).
    ok (used * n_parts)
get_used_perm_range_check_units b vm = ok 0

within-le :
    (b : BuiltinRunner) (used size used' size' : ℕ)
    → within b used size ≡ ok (used', size')
    → used' ≤ size'
unfolding within
within-le b used size used' size' h = ground (arith)

checked_size-le :
    (b : BuiltinRunner) (vm : VirtualMachine) (used size : ℕ)
    → checked_size b vm ≡ ok (used, size)
    → used ≤ size
unfolding checked_size
checked_size-le b vm used size h = bind-ok-elim (get_used_cells b vm.segments) _ h λ u e h₁.
    bind-ok-elim (get_allocated_memory_units b vm) _ h₁ λ n e₁ h₂. within-le b u n used size h₂

same_size :
    (r : Result MemoryError ℕ) (used size : ℕ)
    → ◌>>=◌ {B = ℕ × ℕ} r (λ n. ok (n, n)) ≡ ok (used, size)
    → used ≤ size
same_size (ok n) used size h = ground (arith, ok-injective h)
same_size (err e) used size h = cc h

-- What a builtin uses fits what it has allocated.
pub get_used_cells_and_allocated_size-le :
    (b : BuiltinRunner) (vm : VirtualMachine) (used size : ℕ)
    → get_used_cells_and_allocated_size b vm ≡ ok (used, size)
    → used ≤ size
unfolding get_used_cells_and_allocated_size
get_used_cells_and_allocated_size-le (output c) vm used size h =
    same_size (get_used_cells (output c) vm.segments) used size h
get_used_cells_and_allocated_size-le (segment_arena c o) vm used size h =
    same_size (get_used_cells (segment_arena c o) vm.segments) used size h
get_used_cells_and_allocated_size-le (bitwise c) vm used size h =
    checked_size-le (bitwise c) vm used size h
get_used_cells_and_allocated_size-le (ec_op c) vm used size h =
    checked_size-le (ec_op c) vm used size h
get_used_cells_and_allocated_size-le (hash c v) vm used size h =
    checked_size-le (hash c v) vm used size h
get_used_cells_and_allocated_size-le (range_check c n) vm used size h =
    checked_size-le (range_check c n) vm used size h
get_used_cells_and_allocated_size-le (keccak c) vm used size h =
    checked_size-le (keccak c) vm used size h
get_used_cells_and_allocated_size-le (signature c) vm used size h =
    checked_size-le (signature c) vm used size h
get_used_cells_and_allocated_size-le (poseidon c cache) vm used size h =
    checked_size-le (poseidon c cache) vm used size h
get_used_cells_and_allocated_size-le (mod_builtin c t) vm used size h =
    checked_size-le (mod_builtin c t) vm used size h
