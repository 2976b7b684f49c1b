-- ===== src/Vm.antt =====
-- vm/src/vm/vm_core.rs: the machine.
pub mod State
pub mod Registers
pub mod Operands
pub mod Step
pub mod Deduction
pub mod Frame
pub mod Coherent
pub mod Cache
pub mod Executed
pub mod Effects
pub mod Agrees
pub mod Consistent
pub mod Call
pub mod Frames
pub mod Return
pub mod Reachable
pub mod EndRun
pub mod Limits
pub mod Hints
