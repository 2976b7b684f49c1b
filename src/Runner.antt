-- ===== src/Runner.antt =====
-- vm/src/vm/runners/cairo_runner.rs: the runner, which prepares a program, runs it and reads what it
-- leaves.
pub mod State
pub mod Initialize
pub mod Prepared
pub mod Resources
pub mod Run
pub mod Relocate
pub mod Returned
pub mod ExecutionResources
