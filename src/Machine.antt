-- ===== src/Machine.antt =====
-- The machine numbers that the program computes with: `i64` timestamps and `f64` resources.
pub mod I64
pub mod F64
