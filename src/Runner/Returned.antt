-- ===== src/Runner/Returned.antt =====
-- vm/src/vm/runners/cairo_runner.rs: the values that a run leaves, and the stop pointers of its
-- builtins, which stand on the stack in the order of the program.
use cairo_vm.Base.{
  ℕ, ◌+◌, ◌-◌, ◌%◌, Bool, true, false, not, Option, none, some, List, [], ◌∷◌, ◌++◌, if◌then◌else◌,
  word, ◌==◌,
}
use cairo_vm.Base.Result.{Result, ok, err, ◌>>=◌, map_err, ok_or}
use cairo_vm.Types.BuiltinName.{BuiltinName, same_name}
use cairo_vm.Types.Felt.{FeltOps}
use cairo_vm.Types.Value.{Relocatable, rel}
use cairo_vm.Types.Errors.{RunnerError}
use cairo_vm.Memory.Reads.{get_integer}
use cairo_vm.Segments.{MemorySegmentManager}
use cairo_vm.RunContext.{get_ap}
use cairo_vm.Builtins.Runner.{BuiltinRunner, base, common, name}
use cairo_vm.Builtins.Usage.{final_stack}
use cairo_vm.Runner.State.{CairoRunner, is_proof_mode}
use cairo_vm.Runner.Initialize.Main.{offsets_below}

-- The difference of two `usize`, which wraps in a release build.
unfoldable pub wrapping_sub : ℕ → ℕ → ℕ
wrapping_sub a b = (a + (word - b % word)) % word

-- `a..b` of two numbers.
range : ℕ → ℕ → List ℕ
unfolding offsets_below
range a b = offsets_below a (b - a)

is_named : List BuiltinName → BuiltinName → Bool
unfolding same_name
is_named [] n = false
is_named (m ∷ ms) n = let later = is_named ms n in if same_name m n then true else later

module _ ⦃F : FeltOps⦄ where
  -- The first runner of the name reads its stop pointer.
  stop_named :
      BuiltinName
      → List BuiltinRunner
      → MemorySegmentManager
      → Relocatable
      → Result RunnerError (Option (List BuiltinRunner × Relocatable))
  unfolding same_name name final_stack
  stop_named n [] s pointer = ok none
  stop_named n (b ∷ bs) s pointer = elim (same_name (name b) n) [
    | true ↦ do (b', left) ← final_stack b s pointer; ok (some (b' ∷ bs, left))
    | false ↦ do
      found ← stop_named n bs s pointer
      elim found [ none ↦ ok none | some (bs', left) ↦ ok (some (b ∷ bs', left)) ]
  ]

  -- A builtin that the layout lacks has a zero on the stack.
  stop_missing :
      Bool → BuiltinName → MemorySegmentManager → Relocatable → Result RunnerError Relocatable
  unfolding get_integer
  stop_missing false n s pointer = err (RunnerError.missing_builtin n)
  stop_missing true n s pointer =
      let below = rel pointer.segment_index (pointer.offset - 1) in
      map_err RunnerError.memory (get_integer s.memory below) >>= λ x.
      if x == 0 then ok below else err (RunnerError.missing_builtin_stop_ptr_not_zero n)

  stop_builtin :
      Bool
      → BuiltinName
      → MemorySegmentManager
      → List BuiltinRunner × Relocatable
      → Result RunnerError (List BuiltinRunner × Relocatable)
  unfolding stop_named stop_missing
  stop_builtin allow n s (bs, pointer) = do
    found ← stop_named n bs s pointer
    elim found [
      | some stopped ↦ ok stopped
      | none ↦ stop_missing allow n s pointer >>= λ below. ok (bs, below)
    ]

  -- The last builtin of the program comes first.
  stop_all :
      Bool
      → List BuiltinName
      → MemorySegmentManager
      → List BuiltinRunner × Relocatable
      → Result RunnerError (List BuiltinRunner × Relocatable)
  unfolding stop_builtin
  stop_all allow [] s at = ok at
  stop_all allow (n ∷ ns) s at = stop_all allow ns s at >>= stop_builtin allow n s

  -- `get_builtins_final_stack`: the runners from the last one on, of the builtins of the program.
  stop_used :
      List BuiltinName
      → List BuiltinRunner
      → MemorySegmentManager
      → Relocatable
      → Result RunnerError (List BuiltinRunner × Relocatable)
  unfolding is_named name final_stack
  stop_used names [] s pointer = ok ([], pointer)
  stop_used names (b ∷ bs) s pointer = do
    (bs', left) ← stop_used names bs s pointer
    if is_named names (name b)
        then (final_stack b s left >>= λ (b', left'). ok (b' ∷ bs', left'))
        else ok (b ∷ bs', left)

-- The segment and the stop pointer of each builtin.
segments_info : List BuiltinRunner → Result RunnerError (List (ℕ × ℕ))
unfolding base name
segments_info [] = ok []
segments_info (b ∷ bs) = do
  stop ← ok_or (common b).stop_ptr (RunnerError.no_stop_pointer (name b))
  rest ← segments_info bs
  ok ((base b, stop) ∷ rest)

module _ {Hint V : Type 0} ⦃F : FeltOps⦄ where
  -- In proof mode the return values belong to the public memory.
  add_return_values : CairoRunner Hint V → Relocatable → Result RunnerError (CairoRunner Hint V)
  unfolding wrapping_sub range
  add_return_values r pointer = do
    exec_base ← ok_or r.execution_base RunnerError.no_exec_base
    let ap = get_ap r.vm.run_context
    public ← ok_or r.execution_public_memory RunnerError.no_exec_public_memory
    ok (record r {
      execution_public_memory = some (
          public
          ++ range (wrapping_sub pointer.offset exec_base.offset)
              (wrapping_sub ap.offset exec_base.offset));
    })

  unfoldable pub read_return_values :
      CairoRunner Hint V → Bool → Result RunnerError (CairoRunner Hint V)
  unfolding stop_all is_proof_mode add_return_values
  read_return_values r allow_missing_builtins =
      if not r.run_ended
      then err RunnerError.read_return_values_no_end_run
      else (stop_all allow_missing_builtins r.program.builtins r.vm.segments
            (r.vm.builtin_runners, get_ap r.vm.run_context)
          >>= λ (bs, pointer).
              let stopped = record r { vm = record r.vm { builtin_runners = bs } } in
              if r.segments_finalized
              then err RunnerError.failed_adding_return_values
              else if is_proof_mode r.runner_mode
              then add_return_values stopped pointer
              else ok stopped)

  unfoldable pub get_builtins_final_stack :
      CairoRunner Hint V → Relocatable → Result RunnerError (CairoRunner Hint V × Relocatable)
  unfolding stop_used
  get_builtins_final_stack r pointer = do
    (bs, left) ← stop_used r.program.builtins r.vm.builtin_runners r.vm.segments pointer
    ok (record r { vm = record r.vm { builtin_runners = bs } }, left)

  unfoldable pub get_builtin_segments_info : CairoRunner Hint V → Result RunnerError (List (ℕ × ℕ))
  unfolding segments_info
  get_builtin_segments_info r = segments_info r.vm.builtin_runners
