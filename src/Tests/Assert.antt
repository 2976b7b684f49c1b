-- ===== src/Tests/Assert.antt =====
-- The theorems on one instruction and on the cache at the test program.
use cairo_vm.Base.{false, subst, sym, ℕ, ◌<◌, ◌≡◌, refl, none, some, [], ◌∷◌, arith, word}
use cairo_vm.Base.Int.{pos}
use cairo_vm.Base.Result.{Result, ok, err}
use cairo_vm.Types.Value.{rel, int, IsValue}
use cairo_vm.Types.Errors.{VirtualMachineError}
use cairo_vm.Types.Instruction.{
  Instruction, Register, Op1Addr, Res, PcUpdate, ApUpdate, FpUpdate, Opcode,
}
use cairo_vm.Memory.Cell.{get_value, new, empty}
use cairo_vm.Memory.Store.{Memory, get, insert}
use cairo_vm.Memory.Valid.{IsValid}
use cairo_vm.Builtins.Deduce.{deduce_memory_cell}
use cairo_vm.Vm.State.{VirtualMachine}
use cairo_vm.Vm.Operands.{Computed, compute_operands, compute_res, deduce_op0, deduce_op1}
use cairo_vm.Vm.Step.{run_instruction}
use cairo_vm.Vm.Deduction.{Divides, deduce_op0-compute_res, deduce_op1-compute_res}
use cairo_vm.Vm.Consistent.{compute_operands-compute_res}
use cairo_vm.Vm.Effects.{AreValues, Stand, run_instruction-Stand}
use cairo_vm.Vm.Return.{run_instruction-assert_eq}
use cairo_vm.Tests.Field.{felt_ops, hash_ops}
use cairo_vm.Tests.Machine.{start, machine_of}
use cairo_vm.Tests.Valid.{segments_fit-IsValid}

-- `[ap] = [fp] * 5`, where `[ap]` is 30 and `[fp]` is to be deduced.
abbrev product : Instruction
product = record {
  off0 = pos 0;
  off1 = pos 1;
  off2 = pos 1;
  dst_register = Register.ap;
  op0_register = Register.ap;
  op1_addr = Op1Addr.imm;
  res = Res.mul;
  pc_update = PcUpdate.regular;
  ap_update = ApUpdate.add1;
  fp_update = FpUpdate.regular;
  opcode = Opcode.assert_eq;
}

abbrev filled : Memory
filled = record start.segments.memory {
  data_segments = (new (int 0) ∷ new (int 5) ∷ []) ∷ (new (int 30) ∷ []) ∷ [];
}

abbrev ready : VirtualMachine
ready = record start {
  run_context = record { pc = rel (pos 0) 0; ap = 0; fp = 0 };
  segments = record start.segments { memory = filled };
}

abbrev computed_of : Result VirtualMachineError Computed → Computed
computed_of (ok o) = o
computed_of (err e) = record {
  operands = record { dst = int 0; res = none; op0 = int 0; op1 = int 0 };
  addresses = record {
    dst_addr = rel (pos 0) 0;
    op0_addr = rel (pos 0) 0;
    op1_addr = rel (pos 0) 0;
  };
  deduced = record { dst = false; op0 = false; op1 = false };
  runners = [];
}

unfoldable operands : Computed
unfolding compute_operands
operands = computed_of (compute_operands ready product)

unfoldable after : VirtualMachine
unfolding run_instruction
after = machine_of (run_instruction ready product)

ready-operands : compute_operands ready product ≡ ok operands
unfolding operands compute_operands get deduce_memory_cell get_value new empty
ready-operands = refl

ready-after : run_instruction ready product ≡ ok after
unfolding run_instruction after get deduce_memory_cell get_value new insert empty
ready-after = refl

ready-IsValid : IsValid filled
unfolding get_value new
ready-IsValid = segments_fit-IsValid filled refl refl refl

operands-dst : operands.operands.dst ≡ int 30
unfolding operands compute_operands get deduce_memory_cell get_value new empty
operands-dst = refl

operands-op0 : operands.operands.op0 ≡ int 6
unfolding operands compute_operands get deduce_memory_cell get_value new empty
operands-op0 = refl

operands-op1 : operands.operands.op1 ≡ int 5
unfolding operands compute_operands get deduce_memory_cell get_value new empty
operands-op1 = refl

operands-AreValues : AreValues operands.operands
operands-AreValues = record {
  op0 = subst IsValue (sym operands-op0) small_six;
  op1 = subst IsValue (sym operands-op1) small_five;
  dst = subst IsValue (sym operands-dst) small_thirty;
}
  where
    small_six : IsValue (int 6)
    small_six = omega arith

    small_five : IsValue (int 5)
    small_five = omega arith

    small_thirty : IsValue (int 30)
    small_thirty = omega arith

six-Divides : Divides (int 30) (int 6)
six-Divides d = refl

five-Divides : Divides (int 30) (int 5)
five-Divides d = refl

op0-Divides : Divides operands.operands.dst operands.operands.op0
op0-Divides =
    subst (λ a. Divides a operands.operands.op0) (sym operands-dst)
      (subst (λ b. Divides (int 30) b) (sym operands-op0) six-Divides)

op1-Divides : Divides operands.operands.dst operands.operands.op1
op1-Divides =
    subst (λ a. Divides a operands.operands.op1) (sym operands-dst)
      (subst (λ b. Divides (int 30) b) (sym operands-op1) five-Divides)

run_instruction-assert_eq_example :
    (compute_res product operands.operands.op0 operands.operands.op1
      ≡ ok (some operands.operands.dst))
    × Stand after.segments.memory operands.addresses operands.operands
run_instruction-assert_eq_example =
    run_instruction-assert_eq ready after product operands refl refl ready-IsValid
      operands-AreValues op0-Divides op1-Divides ready-operands ready-after

run_instruction-Stand_example : Stand after.segments.memory operands.addresses operands.operands
run_instruction-Stand_example =
    run_instruction-Stand ready after product operands refl operands-AreValues ready-operands
      ready-after

compute_operands-compute_res_example :
    compute_res product operands.operands.op0 operands.operands.op1 ≡ ok operands.operands.res
compute_operands-compute_res_example =
    compute_operands-compute_res ready product operands op0-Divides op1-Divides ready-IsValid
      operands-AreValues.op0 ready-operands

product-op0 :
    deduce_op0 ready.run_context product (some (int 30)) (some (int 5))
    ≡ ok (some (int 6), some (int 30))
unfolding deduce_op0
product-op0 = refl

product-op1 : deduce_op1 product (some (int 30)) (some (int 6)) ≡ ok (some (int 5), some (int 30))
unfolding deduce_op1
product-op1 = refl

int_fits : (n : ℕ) → n < word → IsValue (int n)
int_fits n h = omega arith

deduce_op0-compute_res_example : compute_res product (int 6) (int 5) ≡ ok (some (int 30))
deduce_op0-compute_res_example =
    deduce_op0-compute_res ready.run_context product (int 30) (int 5) (int 6) (int 30)
      (int_fits 30 (omega arith)) (int_fits 5 (omega arith)) five-Divides product-op0

deduce_op1-compute_res_example : compute_res product (int 6) (int 5) ≡ ok (some (int 30))
deduce_op1-compute_res_example =
    deduce_op1-compute_res product (int 30) (int 6) (int 5) (int 30) (int_fits 30 (omega arith))
      (int_fits 6 (omega arith)) six-Divides product-op1
