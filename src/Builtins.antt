-- ===== src/Builtins.antt =====
-- vm/src/vm/runners/builtin_runner: the builtin runners and their deduction of memory cells.
pub mod Runner
pub mod Bitwise
pub mod Hash
pub mod Poseidon
pub mod Deduce
pub mod RangeCheck
pub mod Usage
pub mod Diluted
pub mod Allocated
pub mod FinalStack
pub mod Security
