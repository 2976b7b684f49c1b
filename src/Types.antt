-- ===== src/Types.antt =====
-- vm/src/types: felts, relocatable values, instructions, and the errors that the parts return.
pub mod Felt
pub mod Value
pub mod Errors
pub mod Relocatable
pub mod Instruction
pub mod BuiltinName
pub mod Program
