-- ===== src/Builtins/Usage.antt =====
-- vm/src/vm/runners/builtin_runner/mod.rs and the runners beside it: segments, stacks, and the cells
-- and instances that a builtin uses and has allocated. A multiplication of a `u32` or a `usize` that
-- overflows is left out.
use cairo_vm.Base.{ℕ, suc, ◌+◌, ◌-◌, ◌*◌, ◌/◌, Bool, List, [], ◌∷◌, ltb, ◌==◌, if◌then◌else◌}
use cairo_vm.Base.Int.{pos, eqb_ℤ}
use cairo_vm.Base.Result.{Result, ok, err, ◌>>=◌, map_err, ok_or}
use cairo_vm.Types.Felt.{FeltOps}
use cairo_vm.Types.Value.{Relocatable, rel, MaybeRelocatable, relocatable_value, int}
use cairo_vm.Types.Errors.{MemoryError, RunnerError}
use cairo_vm.Types.Relocatable.{sub_offset, add_offset}
use cairo_vm.Memory.Reads.{get_relocatable}
use cairo_vm.Memory.Store.{Memory, insert}
use cairo_vm.Segments.{MemorySegmentManager, num_segments, add, get_segment_used_size}
use cairo_vm.Builtins.Runner.{
  BuiltinRunner, bitwise, ec_op, hash, output, range_check, keccak, signature, poseidon,
  segment_arena, mod_builtin, Common, common, with_common, base, name, set_stop_ptr,
}

-- `num_integer::div_ceil`, by a divisor that is not 0.
abbrev pub div_ceil : ℕ → ℕ → ℕ
div_ceil n d = (n + d - 1) / d

abbrev pub included : BuiltinRunner → Bool
included b = (common b).included

unfoldable pub cells_per_instance : BuiltinRunner → ℕ
cells_per_instance (bitwise _) = 5
cells_per_instance (ec_op _) = 7
cells_per_instance (hash _ _) = 3
cells_per_instance (range_check _ _) = 1
cells_per_instance (output _) = 0
cells_per_instance (keccak _) = 16
cells_per_instance (signature _) = 2
cells_per_instance (poseidon _ _) = 6
cells_per_instance (segment_arena _ _) = 3
cells_per_instance (mod_builtin _ _) = 7

unfoldable pub n_input_cells : BuiltinRunner → ℕ
n_input_cells (bitwise _) = 2
n_input_cells (ec_op _) = 5
n_input_cells (hash _ _) = 2
n_input_cells (range_check _ _) = 1
n_input_cells (output _) = 0
n_input_cells (keccak _) = 8
n_input_cells (signature _) = 2
n_input_cells (poseidon _ _) = 3
n_input_cells (segment_arena _ _) = 3
n_input_cells (mod_builtin _ _) = 7

unfoldable pub instances_per_component : BuiltinRunner → ℕ
instances_per_component (keccak _) = 16
instances_per_component _ = 1

unfoldable pub initial_stack : BuiltinRunner → List MaybeRelocatable
initial_stack (segment_arena c offset) =
    if c.included then relocatable_value (rel (pos c.base) offset) ∷ [] else []
initial_stack b =
    let c = common b in if c.included then relocatable_value (rel (pos c.base) 0) ∷ [] else []

unfoldable pub size_of_segment : MemorySegmentManager → ℕ → Result MemoryError ℕ
size_of_segment s index =
    ok_or (get_segment_used_size s index) MemoryError.missing_segment_used_sizes

-- The segment arena starts with one instance in its segment, which does not count.
unfoldable pub after_initial : ℕ → Result MemoryError ℕ
after_initial used =
    if ltb used 3 then err MemoryError.invalid_used_size_segment_arena else ok (used - 3)

unfoldable pub get_used_cells : BuiltinRunner → MemorySegmentManager → Result MemoryError ℕ
unfolding size_of_segment after_initial base
get_used_cells (segment_arena c offset) s = size_of_segment s c.base >>= after_initial
get_used_cells b s = size_of_segment s (base b)

unfoldable pub get_used_instances : BuiltinRunner → MemorySegmentManager → Result MemoryError ℕ
unfolding get_used_cells cells_per_instance
get_used_instances (output c) s = get_used_cells (output c) s
get_used_instances (range_check c n) s = get_used_cells (range_check c n) s
get_used_instances b s = get_used_cells b s >>= λ used. ok (div_ceil used (cells_per_instance b))

-- The pre-loaded instance of the segment arena is part of what its stop pointer counts.
unfoldable pub preloaded : BuiltinRunner → ℕ
preloaded (segment_arena _ _) = 1
preloaded _ = 0

-- The cells that a stop pointer must count: all used ones for the output builtin.
unfoldable pub used_at_stop : BuiltinRunner → MemorySegmentManager → Result RunnerError ℕ
unfolding get_used_cells get_used_instances cells_per_instance preloaded
used_at_stop (output c) s = map_err RunnerError.memory (get_used_cells (output c) s)
used_at_stop b s = do
  n ← map_err RunnerError.memory (get_used_instances b s)
  ok ((n + preloaded b) * cells_per_instance b)

-- The two errors of the stop pointer are one.
unfoldable pub no_pointer {ℓ} :
    {E : Type 0} {A : Type ℓ} → BuiltinRunner → Result E A → Result RunnerError A
no_pointer b r = map_err (λ e. RunnerError.no_stop_pointer (name b)) r

unfoldable pub checked_stop :
    BuiltinRunner → Relocatable → Relocatable → ℕ → Result RunnerError (BuiltinRunner × Relocatable)
unfolding set_stop_ptr name base
checked_stop b stop_pointer_addr stop_pointer used =
    if stop_pointer.offset == used
    then ok (set_stop_ptr b stop_pointer.offset, stop_pointer_addr)
    else err (
        RunnerError.invalid_stop_pointer (name b) (rel (pos (base b)) used)
          (rel (pos (base b)) stop_pointer.offset))

unfoldable pub on_its_segment : BuiltinRunner → Relocatable → Result RunnerError (Unit {0})
unfolding name base
on_its_segment b stop_pointer =
    if eqb_ℤ (pos (base b)) stop_pointer.segment_index
    then ok tt
    else err (RunnerError.invalid_stop_pointer_index (name b) stop_pointer (base b))

module _ ⦃F : FeltOps⦄ where
  -- `final_stack`, and that of the output builtin: the runner with its stop pointer, and the pointer
  -- that is left for the builtin before.
  unfoldable pub final_stack :
      BuiltinRunner
      → MemorySegmentManager
      → Relocatable
      → Result RunnerError (BuiltinRunner × Relocatable)
  unfolding no_pointer on_its_segment used_at_stop checked_stop set_stop_ptr
  final_stack b s pointer =
      if included b
      then (no_pointer b (sub_offset pointer 1) >>= λ addr.
          no_pointer b (get_relocatable s.memory addr) >>= λ stop_pointer.
          on_its_segment b stop_pointer >>= λ t.
          used_at_stop b s >>= λ used. checked_stop b addr stop_pointer used)
      else ok (set_stop_ptr b 0, pointer)

  -- The three cells of the first instance of the segment arena.
  fill : Relocatable → ℕ → List MaybeRelocatable → Memory → Result MemoryError Memory
  fill start n [] m = ok m
  fill start n (v ∷ vs) m = do
    a ← map_err MemoryError.math (add_offset start n)
    m' ← insert m a v
    fill start (suc n) vs m'

  arena_segments :
      Common → MemorySegmentManager → Result MemoryError (BuiltinRunner × MemorySegmentManager)
  unfolding fill add
  arena_segments c s =
      let (s₁, info) = add s in
      let (s₂, start) = add s₁ in
      let values = relocatable_value info ∷ int 0 ∷ int 0 ∷ [] in
      fill start 0 values s₂.memory >>= λ m.
      ok (segment_arena (record c { base = num_segments s₁ }) 3, record s₂ { memory = m })

  -- `initialize_segments`. An error is a panic of the source, in the segment arena.
  unfoldable pub initialize_segments :
      BuiltinRunner
      → MemorySegmentManager
      → Result MemoryError (BuiltinRunner × MemorySegmentManager)
  unfolding arena_segments add num_segments
  initialize_segments (segment_arena c offset) s = arena_segments c s
  initialize_segments b s =
      ok (with_common b (record (common b) { base = num_segments s }), (add s).0)
