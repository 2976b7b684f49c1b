-- ===== src/Tests/Kept.antt =====
-- The stack of a program is the same when it returns.
use cairo_vm.Base.{Option, none, some}
use cairo_vm.Base.Int.{pos}
use cairo_vm.Base.Result.{Result, ok, err}
use cairo_vm.Types.Value.{rel}
use cairo_vm.Types.Errors.{VirtualMachineError}
use cairo_vm.Vm.Hints.{State}
use cairo_vm.Runner.Run.{run_until_pc}
use cairo_vm.Tests.Field.{felt_ops, hash_ops}
use cairo_vm.Tests.Started.{counting, program, running}

abbrev state_of : Option (Result VirtualMachineError (State counting)) → State counting
state_of (some (ok s)) = s
state_of (some (err e)) = running
state_of none = running

unfoldable returned : State counting
unfolding run_until_pc
returned = state_of (run_until_pc counting 5 program (rel (pos 3) 0) running)
