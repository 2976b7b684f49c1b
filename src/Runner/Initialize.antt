-- ===== src/Runner/Initialize.antt =====
-- vm/src/vm/runners/cairo_runner.rs: the segments, the initial stack and the initial registers.
pub mod Main
use cairo_vm.Base.{
  ℕ, zero, suc, ◌+◌, Option, none, some, List, [], ◌∷◌, ◌++◌, if◌then◌else◌, length, wrapping_add,
}
use cairo_vm.Base.Int.{pos, eqb_ℤ}
use cairo_vm.Base.Result.{Result, ok, ◌>>=◌, map_err, ok_or}
use cairo_vm.Types.BuiltinName.{BuiltinName, same_name}
use cairo_vm.Types.Felt.{FeltOps}
use cairo_vm.Types.Value.{Relocatable, rel, MaybeRelocatable, relocatable_value, int}
use cairo_vm.Types.Errors.{MemoryError, RunnerError}
use cairo_vm.Types.Relocatable.{add_offset}
use cairo_vm.Types.Instruction.{Instruction}
use cairo_vm.Memory.Store.{Memory, ValidationRule, mark_as_accessed}
use cairo_vm.Memory.Rules.{add_validation_rule, validate_existing_memory}
use cairo_vm.Segments
use cairo_vm.Segments.{MemorySegmentManager}
use cairo_vm.Builtins.Runner.{BuiltinRunner, Common, range_check, signature, name}
use cairo_vm.Builtins.RangeCheck.{add_range_check_rule}
use cairo_vm.Builtins.Usage.{initial_stack}
use cairo_vm.Builtins.Usage
use cairo_vm.Vm.State.{VirtualMachine}
use cairo_vm.Runner.State.{
  CairoRunner, RunnerMode, execution_mode, proof_mode_canonical, proof_mode_cairo1,
}

-- `VirtualMachine::add_memory_segment`
unfoldable pub add_memory_segment : VirtualMachine → VirtualMachine × Relocatable
unfolding Segments.add
add_memory_segment vm =
    let (s, base) = Segments.add vm.segments in (record vm { segments = s }, base)

base_or_new : Option Relocatable → VirtualMachine → VirtualMachine × Relocatable
unfolding add_memory_segment
base_or_new (some base) vm = (vm, base)
base_or_new none vm = add_memory_segment vm

-- `Vec::resize` with empty slots, which also cuts a longer cache.
resize : List (Option Instruction) → ℕ → List (Option Instruction)
resize xs zero = []
resize [] (suc n) = none ∷ resize [] n
resize (x ∷ xs) (suc n) = x ∷ resize xs n

module _ ⦃F : FeltOps⦄ where
  -- The data of a program in the first segment resets the instruction cache.
  unfoldable pub load_data :
      VirtualMachine
      → Relocatable
      → List MaybeRelocatable
      → Result MemoryError (VirtualMachine × Relocatable)
  unfolding resize Segments.load_data
  load_data vm ptr vs = do
    (s, end) ← Segments.load_data vm.segments ptr vs
    ok (
      record vm {
        segments = s;
        instruction_cache =
            if eqb_ℤ ptr.segment_index (pos 0)
            then resize vm.instruction_cache (length vs)
            else vm.instruction_cache;
      },
      end,
    )

  -- The builtins get their segments one after another.
  builtin_segments :
      List BuiltinRunner
      → MemorySegmentManager
      → Result RunnerError (List BuiltinRunner × MemorySegmentManager)
  unfolding Usage.initialize_segments
  builtin_segments [] s = ok ([], s)
  builtin_segments (b ∷ bs) s = do
    (b', s₁) ← map_err (λ e. RunnerError.panicked) (Usage.initialize_segments b s)
    (bs', s₂) ← builtin_segments bs s₁
    ok (b' ∷ bs', s₂)

  -- The address after `base + i`, …, as the program's cells are marked.
  unfoldable pub mark_program : Relocatable → ℕ → ℕ → Memory → Result RunnerError Memory
  unfolding add_offset mark_as_accessed
  mark_program base i zero m = ok m
  mark_program base i (suc n) m = do
    a ← map_err RunnerError.math (add_offset base i)
    mark_program base (suc i) n (mark_as_accessed m a)

module _ {Hint V : Type 0} ⦃F : FeltOps⦄ where
  unfoldable pub initialize_segments :
      CairoRunner Hint V → Option Relocatable → Result RunnerError (CairoRunner Hint V)
  unfolding base_or_new add_memory_segment builtin_segments
  initialize_segments r program_base =
      let (vm₁, base) = base_or_new program_base r.vm in
      let (vm₂, execution) = add_memory_segment vm₁ in
      builtin_segments vm₂.builtin_runners vm₂.segments >>= λ (runners, s). ok (record r {
        vm = record vm₂ { builtin_runners = runners; segments = s };
        program_base = some base;
        execution_base = some execution;
      })

  unfoldable pub initialize_state :
      CairoRunner Hint V → ℕ → List MaybeRelocatable → Result RunnerError (CairoRunner Hint V)
  unfolding load_data mark_program
  initialize_state r entrypoint stack = do
    prog_base ← ok_or r.program_base RunnerError.no_prog_base
    exec_base ← ok_or r.execution_base RunnerError.no_exec_base
    initial_pc ← map_err RunnerError.math (add_offset prog_base entrypoint)
    (vm, _) ←
        map_err RunnerError.memory_initialization_error
          (load_data r.vm prog_base r.program.data_words)
    let segments = vm.segments
    m ← mark_program prog_base 0 (length r.program.data_words) segments.memory
    (s, _) ←
        map_err RunnerError.memory_initialization_error
          (Segments.load_data (record segments { memory = m }) exec_base stack)
    ok (record r { vm = record vm { segments = s }; initial_pc = some initial_pc })

  -- The return address `end` is a segment of its own, where no instruction stands.
  unfoldable pub initialize_function_entrypoint :
      CairoRunner Hint V
      → ℕ
      → List MaybeRelocatable
      → MaybeRelocatable
      → Result RunnerError (CairoRunner Hint V × Relocatable)
  unfolding initialize_state add_memory_segment
  initialize_function_entrypoint r entrypoint stack return_fp =
      let (vm, end) = add_memory_segment r.vm in
      let frame = stack ++ return_fp ∷ relocatable_value end ∷ [] in
      ok_or r.execution_base RunnerError.no_exec_base >>= λ base.
      let fp = rel base.segment_index (wrapping_add base.offset (length frame)) in
      initialize_state (record r { vm = vm; initial_fp = some fp; initial_ap = some fp }) entrypoint
        frame
      >>= λ r'. ok (record r' { final_pc = some end }, end)

-- `BuiltinRunner::add_validation_rule`. The rule of the signature builtin, which rests on a crate
-- for signatures, is an argument.
add_rule : (Common → ValidationRule) → BuiltinRunner → Memory → Memory
unfolding add_range_check_rule add_validation_rule
add_rule signature_rule (range_check c n_parts) m = add_range_check_rule m c.base n_parts
add_rule signature_rule (signature c) m = add_validation_rule m c.base (signature_rule c)
add_rule signature_rule b m = m

add_rules : (Common → ValidationRule) → List BuiltinRunner → Memory → Memory
unfolding add_rule
add_rules signature_rule [] m = m
add_rules signature_rule (b ∷ bs) m = add_rules signature_rule bs (add_rule signature_rule b m)

module _ {Hint V : Type 0} ⦃F : FeltOps⦄ where
  unfoldable pub initialize_vm :
      (Common → ValidationRule) → CairoRunner Hint V → Result RunnerError (CairoRunner Hint V)
  unfolding add_rules validate_existing_memory
  initialize_vm signature_rule r = do
    pc ← ok_or r.initial_pc RunnerError.no_pc
    ap ← ok_or r.initial_ap RunnerError.no_ap
    fp ← ok_or r.initial_fp RunnerError.no_fp
    let vm = r.vm
    let segments = vm.segments
    m ←
        map_err RunnerError.memory_validation_error
          (validate_existing_memory (add_rules signature_rule vm.builtin_runners segments.memory))
    ok (record r {
      vm = record vm {
        run_context = record { pc = pc; ap = ap.offset; fp = fp.offset };
        segments = record segments { memory = m };
      };
    })
