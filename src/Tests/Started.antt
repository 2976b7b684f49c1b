-- ===== src/Tests/Started.antt =====
-- A run of a program with one hint, from its entry point to its end.
use cairo_vm.Base.{
  ℕ, zero, suc, ◌-◌, ◌≤◌, ◌≡◌, refl, ap, true, false, Option, none, some, List, [], ◌∷◌, arith,
}
use cairo_vm.Base.Int.{pos}
use cairo_vm.Base.Result.{Result, ok, err, ok-injective}
use cairo_vm.Types.Program.{ProgramError, HintsCollection, new_hints, slice_for_pc}
use cairo_vm.Types.Program.Ranges.{hints_for, new_hints-slice_for_pc}
use cairo_vm.Types.Value.{Relocatable, rel, MaybeRelocatable, relocatable_value, int}
use cairo_vm.Types.Errors.{HintError, RunnerError, VirtualMachineError}
use cairo_vm.Memory.Cell.{get_value, new, empty, mark_accessed}
use cairo_vm.Memory.Reads.{get_integer}
use cairo_vm.Vm.Step.{step_instruction}
use cairo_vm.Decoder.{decode_instruction}
use cairo_vm.Builtins.Deduce.{deduce_memory_cell}
use cairo_vm.Types.Relocatable.{sub_offset}
use cairo_vm.Memory.Store.{new_memory, insert, get, mark_as_accessed}
use cairo_vm.Segments.{new_segments}
use cairo_vm.Segments.Load.{AllValues}
use cairo_vm.ExecScope.{assign_or_update_variable, new_scopes}
use cairo_vm.Vm.Hints.{Running, HintProcessor, State}
use cairo_vm.Vm.Hints.Metered.{Metered}
use cairo_vm.Runner.State.{CairoRunner, Program, execution_mode}
use cairo_vm.Runner.Initialize.{initialize_function_entrypoint, add_memory_segment}
use cairo_vm.Runner.Prepared.{IsEntered, initialize_function_entrypoint-IsEntered}
use cairo_vm.Runner.Resources.{limited, consumed}
use cairo_vm.Runner.Run.{run_until_pc}
use cairo_vm.Runner.Run.Ends.{Ended, run_until_pc-Ended}
use cairo_vm.Tests.Field.{felt_ops, hash_ops}
use cairo_vm.Tests.Machine.{start}
use cairo_vm.Tests.Machine

-- A hint sets the variable n.
abbrev pub set_n : ℕ → Running ℕ ℕ → Result HintError (Running ℕ ℕ)
set_n n s = ok (record s { exec_scopes = assign_or_update_variable s.exec_scopes "n" n })

-- The state of the processor is the number of steps that are left.
abbrev pub counting : HintProcessor
counting = record {
  Processor = ℕ;
  Value = ℕ;
  Hint = ℕ;
  HintData = ℕ;
  compile_hint = λ p h. some h;
  execute_hint = set_n;
  consumed = λ p. consumed (limited (some p));
  consume_step = λ p. p - 1;
}

none_left : (p : ℕ) → p ≡ 0 → consumed (limited (some p)) ≡ true
unfolding consumed
none_left zero h = refl
none_left (suc p) h = absurd (omega (arith, h))

set_n-le : (d : ℕ) (s s' : Running ℕ ℕ) → set_n d s ≡ ok s' → s'.processor ≤ s.processor
set_n-le d s s' h = omega (arith, ap (λ (x : Running ℕ ℕ). x.processor) (ok-injective h))

abbrev counting-Metered : Metered counting
counting-Metered = record {
  steps_left = λ p. p;
  consumed_lem = none_left;
  consume_step_lem = λ p h. omega (arith, h);
  consume_step-le = λ p. omega arith;
  execute_hint_lem = set_n-le;
}

abbrev pub program : Program ℕ
program = record {
  builtins = [];
  data_words = Machine.program;
  hints_collection = record { hints = 7 ∷ []; hints_ranges = some (0, 1) ∷ [] };
  start = none;
  end = none;
}

abbrev pub running : State counting
running = record { vm = start; exec_scopes = new_scopes; processor = 4 }

abbrev seen : Option (Result VirtualMachineError (State counting)) → Option (Relocatable × ℕ)
seen (some (ok s)) = some (s.vm.run_context.pc, s.processor)
seen (some (err e)) = none
seen none = none

-- The program returns in four steps.
run_ends : seen (run_until_pc counting 5 program (rel (pos 3) 0) running) ≡ some (rel (pos 3) 0, 0)
unfolding run_until_pc consumed step_instruction get_integer get get_value new decode_instruction
    deduce_memory_cell insert empty mark_as_accessed sub_offset mark_accessed
run_ends = refl

run_until_pc-Ended_example :
    Ended counting (rel (pos 3) 0) (run_until_pc counting 5 program (rel (pos 3) 0) running)
run_until_pc-Ended_example =
    run_until_pc-Ended counting counting-Metered 5 program (rel (pos 3) 0) running (omega arith)

abbrev pub runner : CairoRunner ℕ ℕ
runner = record {
  vm = record start {
    segments = record new_segments { memory = record new_memory { data_segments = [] ∷ [] ∷ [] } };
  };
  program = program;
  final_pc = none;
  program_base = some (rel (pos 0) 0);
  execution_base = some (rel (pos 1) 0);
  entrypoint = some 0;
  initial_ap = none;
  initial_fp = none;
  initial_pc = none;
  run_ended = false;
  segments_finalized = false;
  execution_public_memory = none;
  runner_mode = execution_mode;
  relocated_memory = [];
  exec_scopes = new_scopes;
  relocated_trace = none;
}

abbrev runner_of : Result RunnerError (CairoRunner ℕ ℕ × Relocatable) → CairoRunner ℕ ℕ
runner_of (ok (r, end)) = r
runner_of (err e) = runner

unfoldable entered : CairoRunner ℕ ℕ
unfolding initialize_function_entrypoint
entered = runner_of (initialize_function_entrypoint runner 4 (int 9 ∷ []) (int 0))

enters : initialize_function_entrypoint runner 4 (int 9 ∷ []) (int 0) ≡ ok (entered, rel (pos 2) 0)
unfolding entered initialize_function_entrypoint insert get_value empty
enters = refl

abbrev frame : List MaybeRelocatable
frame = int 9 ∷ int 0 ∷ relocatable_value (add_memory_segment runner.vm).1 ∷ []

program-AllValues : AllValues Machine.program
program-AllValues = (
  omega arith,
  (omega arith, (omega arith, (omega arith, (omega arith, (omega arith, (omega arith, tt)))))),
)

frame-AllValues : AllValues frame
unfolding add_memory_segment
frame-AllValues =
    (omega arith, (omega arith, (record { segment = omega arith; offset = omega arith }, tt)))

initialize_function_entrypoint-IsEntered_example :
    IsEntered runner entered 4 (int 9 ∷ []) (int 0) (rel (pos 2) 0)
initialize_function_entrypoint-IsEntered_example =
    initialize_function_entrypoint-IsEntered runner entered 4 (int 9 ∷ []) (int 0) (rel (pos 2) 0)
      program-AllValues frame-AllValues enters

-- Hints at the addresses 0 and 4 of a program of seven words.
abbrev hint_map : List (ℕ × List ℕ)
hint_map = (0, 7 ∷ []) ∷ (4, 8 ∷ 9 ∷ []) ∷ []

abbrev hint_table : HintsCollection ℕ
hint_table = record {
  hints = 7 ∷ 8 ∷ 9 ∷ [];
  hints_ranges = some (0, 1) ∷ none ∷ none ∷ none ∷ some (1, 2) ∷ [];
}

hints_made : new_hints hint_map 7 ≡ ok hint_table
unfolding new_hints
hints_made = refl

beyond_program : new_hints hint_map 4 ≡ err (ProgramError.invalid_hint_pc 4 4)
unfolding new_hints
beyond_program = refl

new_hints-slice_for_pc_example : slice_for_pc hint_table hint_table.hints 4 ≡ hints_for hint_map 4
new_hints-slice_for_pc_example =
    new_hints-slice_for_pc hint_map 7 hint_table 4 ((λ e. absurd (omega (arith, e)), tt), (tt, tt))
      hints_made
