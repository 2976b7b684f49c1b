-- ===== src/Math.antt =====
-- vm/src/math_utils/mod.rs: integer roots, exact and modular division, points of curves, residues.
pub mod Sqrt
pub mod Division
pub mod Curve
pub mod Residues
pub mod Felts
