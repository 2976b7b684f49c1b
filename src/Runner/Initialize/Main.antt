-- ===== src/Runner/Initialize/Main.antt =====
-- vm/src/vm/runners/cairo_runner.rs: the stack and the registers of the main entry point, in each
-- mode.
use cairo_vm.Base.{
  ℕ, zero, suc, ◌+◌, Option, none, some, List, [], ◌∷◌, ◌++◌, if◌then◌else◌, length,
}
use cairo_vm.Base.Result.{Result, ok, ◌>>=◌, map_err, ok_or}
use cairo_vm.Types.BuiltinName.{BuiltinName, same_name}
use cairo_vm.Types.Felt.{FeltOps}
use cairo_vm.Types.Value.{Relocatable, MaybeRelocatable, relocatable_value, int}
use cairo_vm.Types.Errors.{RunnerError}
use cairo_vm.Types.Relocatable.{add_offset}
use cairo_vm.Builtins.Runner.{BuiltinRunner, name}
use cairo_vm.Builtins.Usage.{initial_stack}
use cairo_vm.Runner.State.{
  CairoRunner, RunnerMode, execution_mode, proof_mode_canonical, proof_mode_cairo1,
}
use cairo_vm.Runner.Initialize.{
  add_memory_segment, initialize_state, initialize_function_entrypoint,
}

-- The last runner of a name, as the map from names that the source collects has it.
runner_named : List BuiltinRunner → BuiltinName → Option BuiltinRunner
unfolding name same_name
runner_named [] n = none
runner_named (b ∷ bs) n =
    let later = runner_named bs n in
    elim later [ some r ↦ some r | none ↦ if same_name (name b) n then some b else none ]

-- The stack of a program's builtins. A builtin that the layout lacks has a zero.
stack_of : List BuiltinRunner → List BuiltinName → List MaybeRelocatable
unfolding runner_named initial_stack
stack_of runners [] = []
stack_of runners (n ∷ ns) = elim (runner_named runners n) [
  | some b ↦ initial_stack b ++ stack_of runners ns
  | none ↦ int 0 ∷ stack_of runners ns
]

-- The offsets i, …, i + n - 1.
unfoldable pub offsets_below : ℕ → ℕ → List ℕ
offsets_below i zero = []
offsets_below i (suc n) = i ∷ offsets_below (suc i) n

module _ {Hint V : Type 0} ⦃F : FeltOps⦄ where
  -- In canonical proof mode the stack starts with the last frame pointer and a zero, which stand for
  -- the last `fp` and `pc` in the public memory.
  canonical_stack :
      CairoRunner Hint V → List MaybeRelocatable → Result RunnerError (List MaybeRelocatable)
  canonical_stack r stack = do
    base ← ok_or r.execution_base RunnerError.no_exec_base
    target ← map_err RunnerError.math (add_offset base 2)
    ok (relocatable_value target ∷ int 0 ∷ stack)

  canonical_state :
      CairoRunner Hint V → List MaybeRelocatable → Result RunnerError (CairoRunner Hint V)
  unfolding canonical_stack offsets_below initialize_state
  canonical_state r stack = do
    prefixed ← canonical_stack r stack
    start ← ok_or r.program.start RunnerError.no_program_start
    initialize_state
        (record r { execution_public_memory = some (offsets_below 0 (length prefixed)) }) start
        prefixed

  cairo1_state :
      CairoRunner Hint V → List MaybeRelocatable → Result RunnerError (CairoRunner Hint V)
  unfolding initialize_state add_memory_segment
  cairo1_state r stack =
      let (vm₁, return_fp) = add_memory_segment r.vm in
      let (vm₂, end) = add_memory_segment vm₁ in
      ok_or r.program.start RunnerError.no_program_start >>= λ start.
      initialize_state (record r { vm = vm₂ }) start
        (stack ++ relocatable_value return_fp ∷ relocatable_value end ∷ [])

  -- The registers of a proof run, and the end label of the program.
  proof_registers : ℕ → CairoRunner Hint V → Result RunnerError (CairoRunner Hint V × Relocatable)
  proof_registers target_offset r = do
    base ← ok_or r.execution_base RunnerError.no_exec_base
    fp ← map_err RunnerError.math (add_offset base target_offset)
    prog_base ← ok_or r.program_base RunnerError.no_prog_base
    end ← ok_or r.program.end RunnerError.no_program_end
    stop ← map_err RunnerError.math (add_offset prog_base end)
    ok (record r { initial_fp = some fp; initial_ap = some fp }, stop)

  main_function :
      CairoRunner Hint V
      → List MaybeRelocatable
      → Result RunnerError (CairoRunner Hint V × Relocatable)
  unfolding initialize_function_entrypoint add_memory_segment
  main_function r stack =
      let (vm, return_fp) = add_memory_segment r.vm in
      ok_or r.entrypoint RunnerError.missing_main >>= λ main.
      initialize_function_entrypoint (record r { vm = vm }) main stack (relocatable_value return_fp)

  main_in_mode :
      RunnerMode
      → CairoRunner Hint V
      → List MaybeRelocatable
      → Result RunnerError (CairoRunner Hint V × Relocatable)
  unfolding main_function canonical_state cairo1_state proof_registers
  main_in_mode execution_mode r stack = main_function r stack
  main_in_mode proof_mode_canonical r stack = canonical_state r stack >>= proof_registers 2
  main_in_mode proof_mode_cairo1 r stack =
      cairo1_state r stack >>= proof_registers (length stack + 2)

  unfoldable pub initialize_main_entrypoint :
      CairoRunner Hint V → Result RunnerError (CairoRunner Hint V × Relocatable)
  unfolding main_in_mode stack_of
  initialize_main_entrypoint r =
      main_in_mode r.runner_mode r (stack_of r.vm.builtin_runners r.program.builtins)
