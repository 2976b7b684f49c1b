-- ===== src/Types/Errors.antt =====
-- vm/src/types/errors/math_errors.rs and vm/src/vm/errors: the errors that the modelled code
-- returns, with what they carry.
use Prim.Native.String.{String}
use cairo_vm.Types.BuiltinName.{BuiltinName}
use cairo_vm.Base.{List, ℕ, Option}
use cairo_vm.Base.Int.{ℤ}
use cairo_vm.Types.Felt.{Felt}
use cairo_vm.Types.Value.{Relocatable, MaybeRelocatable}

pub data MathError : Type 0 where
  relocatable_add_usize_offset_exceeded : Relocatable → ℕ → MathError
  relocatable_add_felt252_offset_exceeded : Relocatable → Felt → MathError
  relocatable_add : Relocatable → Relocatable → MathError
  relocatable_sub_usize_neg_offset : Relocatable → ℕ → MathError
  relocatable_sub_felt252_neg_offset : Relocatable → Felt → MathError
  relocatable_sub_diff_index : Relocatable → Relocatable → MathError
  sub_relocatable_from_int : Felt → Relocatable → MathError
  felt252_to_relocatable : Felt → MathError
  felt252_to_usize_conversion : Felt → MathError
  div_mod_wrong_type : MaybeRelocatable → MaybeRelocatable → MathError
  divided_by_zero : MathError
  safe_div_fail_usize : ℕ → ℕ → MathError
  safe_div_fail : Felt → Felt → MathError
  safe_div_fail_big_int : ℤ → ℤ → MathError
  failed_to_get_sqrt : ℕ → MathError
  is_quad_residue_zero_prime : MathError
  div_mod_igcdex_not_zero : ℤ → ℤ → ℤ → MathError
  -- A division by zero that the code does not guard: the process panics.
  panicked : MathError

pub data InsufficientAllocatedCellsError : Type 0 where
  min_step_not_reached : ℕ → BuiltinName → InsufficientAllocatedCellsError
  builtin_cells : BuiltinName → ℕ → ℕ → InsufficientAllocatedCellsError

pub data MemoryError : Type 0 where
  unallocated_segment : ℕ → ℕ → MemoryError
  vec_capacity_exceeded : MemoryError
  inconsistent_memory : Relocatable → MaybeRelocatable → MaybeRelocatable → MemoryError
  address_not_in_temporary_segment : ℤ → MemoryError
  non_zero_offset : ℕ → MemoryError
  duplicated_relocation : ℤ → MemoryError
  unknown_memory_cell : Relocatable → MemoryError
  expected_integer : Relocatable → MemoryError
  expected_relocatable : Relocatable → MemoryError
  address_not_relocatable : MemoryError
  address_in_temporary_segment : ℤ → MemoryError
  temporary_segment_in_relocation : ℤ → MemoryError
  relocation : MemoryError
  missing_segment_used_sizes : MemoryError
  segment_has_more_accessed_addresses_than_size : ℕ → ℕ → ℕ → MemoryError
  malformed_public_memory : MemoryError
  get_range_memory_gap : Relocatable → ℕ → MemoryError
  range_check_found_non_int : Relocatable → MemoryError
  range_check_num_out_of_bounds : Felt → Felt → MemoryError
  missing_memory_cells : BuiltinName → MemoryError
  missing_memory_cells_with_offsets : BuiltinName → List ℕ → MemoryError
  error_calculating_memory_units : MemoryError
  invalid_used_size_segment_arena : MemoryError
  insufficient_allocated_cells : InsufficientAllocatedCellsError → MemoryError
  failed_to_get_return_values : ℕ → Relocatable → MemoryError
  math : MathError → MemoryError

pub data RunnerError : Type 0 where
  integer_bigger_than_power_of_two : Relocatable → ℕ → Felt → RunnerError
  builtin_expected_integer : BuiltinName → Relocatable → RunnerError
  invalid_stop_pointer_index : BuiltinName → Relocatable → ℕ → RunnerError
  invalid_stop_pointer : BuiltinName → Relocatable → Relocatable → RunnerError
  no_stop_pointer : BuiltinName → RunnerError
  no_exec_base : RunnerError
  no_prog_base : RunnerError
  missing_main : RunnerError
  no_pc : RunnerError
  no_ap : RunnerError
  no_fp : RunnerError
  memory_validation_error : MemoryError → RunnerError
  memory_initialization_error : MemoryError → RunnerError
  no_program_start : RunnerError
  no_program_end : RunnerError
  read_return_values_no_end_run : RunnerError
  failed_adding_return_values : RunnerError
  no_exec_public_memory : RunnerError
  missing_builtin : BuiltinName → RunnerError
  missing_builtin_stop_ptr_not_zero : BuiltinName → RunnerError
  -- An `unwrap` of an error: the process panics.
  panicked : RunnerError
  page_not_on_segment : Relocatable → ℕ → RunnerError
  memory : MemoryError → RunnerError
  math : MathError → RunnerError

pub data ExecScopeError : Type 0 where
  exit_main_scope_error : ExecScopeError
  no_scope_error : ExecScopeError

mutual
  pub data VirtualMachineError : Type 0 where
    instruction_non_zero_high_bit : VirtualMachineError
    invalid_op1_reg : ℕ → VirtualMachineError
    invalid_pc_update : ℕ → VirtualMachineError
    invalid_res : ℕ → VirtualMachineError
    invalid_opcode : ℕ → VirtualMachineError
    invalid_ap_update : ℕ → VirtualMachineError
    imm_should_be1 : VirtualMachineError
    unknown_op0 : VirtualMachineError
    invalid_instruction_encoding : VirtualMachineError
    unconstrained_res_add : VirtualMachineError
    unconstrained_res_jump : VirtualMachineError
    unconstrained_res_jump_rel : VirtualMachineError
    unconstrained_res_assert_eq : VirtualMachineError
    jump_rel_not_int : VirtualMachineError
    no_dst : VirtualMachineError
    compute_res_relocatable_mul : MaybeRelocatable → MaybeRelocatable → VirtualMachineError
    diff_assert_values : MaybeRelocatable → MaybeRelocatable → VirtualMachineError
    cant_write_return_pc : MaybeRelocatable → MaybeRelocatable → VirtualMachineError
    cant_write_return_fp : MaybeRelocatable → MaybeRelocatable → VirtualMachineError
    failed_to_compute_op0 : Relocatable → VirtualMachineError
    failed_to_compute_op1 : Relocatable → VirtualMachineError
    inconsistent_auto_deduction :
        BuiltinName → MaybeRelocatable → Option MaybeRelocatable → VirtualMachineError
    -- An index out of range: the process panics.
    panicked : VirtualMachineError
    run_not_finished : VirtualMachineError
    no_scope_error : VirtualMachineError
    unfinished_execution : VirtualMachineError
    end_of_program : ℕ → VirtualMachineError
    compile_hint_fail : VirtualMachineError
    -- A hint failed, with its index in the list of the step's hints.
    hint : ℕ → HintError → VirtualMachineError
    memory : MemoryError → VirtualMachineError
    math : MathError → VirtualMachineError
    runner_error : RunnerError → VirtualMachineError

  pub data HintError : Type 0 where
    from_scope_error : ExecScopeError → HintError
    internal : VirtualMachineError → HintError
    variable_not_in_scope_error : String → HintError

pub data TraceError : Type 0 where
  trace_not_enabled : TraceError
  already_relocated : TraceError
  no_relocation_found : TraceError
  memory_error : MemoryError → TraceError
  -- A call of `expect` fails: the process panics.
  panicked : TraceError
