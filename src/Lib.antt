-- ===== src/Lib.antt =====
-- A model of the core of cairo-vm, the virtual machine of vm/src: its memory, its decoder, its
-- registers and the step that executes one instruction, with theorems on them.
--
-- The parts. A program is loaded into the segments of a write-once memory. A step takes the
-- instruction at `pc` from the instruction cache or decodes it, computes the addresses of its
-- operands from the registers, reads the operands or deduces those that are missing (a builtin's
-- deduction comes first), writes the deduced ones, checks what the opcode asserts, and moves the
-- registers. After a run the segments are laid out in one flat memory.
--
-- - Base: Boolean tests, lists, integers and Rust's `Result`. `usize`, `u64` and `isize` are 64
--   bits wide; additions of the source that can wrap are written with `wrapping_add`.
-- - Types: types/relocatable.rs (Value, Relocatable), types/instruction.rs (Instruction), the hints
--   of types/program.rs (Program, with the proofs in Ranges), the errors of types/errors and
--   vm/errors that the modelled code returns (Errors), and what the code uses of `Felt252` (Felt). `Felt252`, of the crate starknet-types-core, is the parameter
--   `FeltOps`: its operations, with the laws that its documentation states.
-- - Memory: vm/vm_memory/memory.rs. Cell is `MemoryCell`, a value packed in four words with
--   flags; AddressSet the set of validated addresses; Store the state `Memory` with `insert`,
--   `get`, the relocation of values and the validation of a cell; Rules adds relocation and
--   validation rules and validates what is in memory; Access the marks of accessed cells;
--   Compare is `memcmp`, with Values; Relocate is `relocate_memory`; Reads the typed reads and reads of
--   ranges. Insert, WriteOnce, Valid and Moved hold the proofs. A validation rule is a function of what `get` reads.
-- - Decoder: vm/decoding/decoder.rs. Encode is the encoding that RoundTrip proves it to invert.
-- - Segments: vm/vm_memory/memory_segments.rs. Load and Layout hold the proofs on `load_data`
--   and on the relocation table of `relocate_segments`. Hash maps are association lists.
-- - RunContext: vm/context/run_context.rs.
-- - Builtins: the runners of vm/runners/builtin_runner, with the deductions of the bitwise,
--   Pedersen and Poseidon builtins and the rule of the range check. Usage has segments, stacks
--   and cells in use, with FinalStack and Rounded; Allocated what the steps allow; Diluted the diluted units;
--   Security the security checks, with Inputs. The additional checks of the modular builtins are
--   an argument of the security checks. `HashOps` holds the hash
--   functions of the crate, and the deductions of the EC operation and Keccak builtins, which
--   are not modelled.
-- - Vm: vm/vm_core.rs. State is `VirtualMachine`; Registers, Operands and Step are its methods
--   up to `step_instruction`, and EndRun is `end_run` with the check of the builtins. Deduction,
--   Agrees, Consistent, Frame, Coherent, Cache, Executed, Effects, Call, Frames, Return,
--   Reachable and Limits hold the proofs.
-- - Math: math_utils/mod.rs. Sqrt is `isqrt`; Division the extended Euclidean algorithm and
--   modular division, with the proofs in Euclidean and Inverse; Curve the addition and doubling
--   of points, with Chord; Residues square roots modulo a prime, with Roots; Felts signed values
--   and powers of two. `BigInt` is `ℤ` and `BigUint` is `ℕ`, without a bound. Modular powers, the
--   test for primes and the random numbers of crates are the parameter `NumberOps`.
-- - ExecScope: types/exec_scope.rs, the stack of scopes of hints, with Balance. Values are of a
--   type of the host, and a downcast is a partial function from it.
-- - Vm/Hints: `step` and `step_hint`. A hint is any code of the host: the record HintProcessor
--   holds what the machine calls of a processor, with Metered for one that counts steps.
-- - Runner: vm/runners/cairo_runner.rs. State is `CairoRunner` without its layout, with the parts
--   of types/program.rs that it uses; Initialize the segments, the initial stack and the registers
--   in each mode (Main), with Prepared; Resources `RunResources`; Run the runs until an address and for a
--   number of steps, with Ends and Keeps; Relocate the flat memory and trace, with Cells and Flat;
--   Returned the stop pointers and return values; ExecutionResources the sums of resources, with
--   Sums.
-- - Tests: a concrete field, a program that calls a function, and the theorems at examples.
--
-- A method that mutates `self` is a function from the state before to a `Result` with the state
-- after; where the source returns an error after a partial write, the model returns the error
-- alone. The model keeps a `usize` as a number without a bound; theorems that rest on a bound
-- state it. `step_instruction` returns `panicked` where the source indexes a vector out of
-- range. Loops over lists and counters are recursions on them. The `while` loops of Math are
-- Base/Loops. Those of `igcdex a b` and `mul_inv a b` have b + 1 rounds, one more than the number
-- that each round makes smaller; that of `isqrt n` takes a number of rounds, and gives `none` if
-- it has not ended in them: n + 1 are enough. The loop of `sqrt_tonelli_shanks`
-- that draws random numbers has no bound in the source, and takes a bound on the draws here. The
-- loop of `run_until_pc` ends with the program or with the steps that the processor has left; it
-- takes a number of rounds here, of which one more than the steps left is enough.
--
-- Not modelled: the hints of the Cairo library, the feature `extensive_hints`, layouts, `end_run`,
-- the checks of usage and `finalize_segments` of `CairoRunner`, PIE files, `mem_eq` and public
-- memory, private inputs and additional data of the builtins, serialisation, and the crates around
-- the library.
pub mod Base
pub mod Types
pub mod Memory
pub mod Decoder
pub mod Segments
pub mod RunContext
pub mod Builtins
pub mod Vm
pub mod Math
pub mod ExecScope
pub mod Runner
pub mod Tests
