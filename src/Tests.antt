-- ===== src/Tests.antt =====
-- Concrete instances of the parameters, tests of the definitions, and the theorems at examples.
pub mod Field
mod Valid
pub mod Machine
mod Run
mod Assert
mod Cached
mod Stored
mod Numbers
mod Usage
mod Scopes
mod Decoding
mod Tables
mod Checked
mod Ended
pub mod Started
mod Flattened
mod Used
mod Compared
mod Kept
