-- ===== src/Memory.antt =====
-- vm/src/vm/vm_memory/memory.rs: the segmented, write-once memory.
pub mod Cell
pub mod AddressSet
pub mod Store
pub mod Insert
pub mod WriteOnce
pub mod Valid
pub mod Access
pub mod Reads
pub mod Rules
pub mod Compare
pub mod Relocate
pub mod Moved
