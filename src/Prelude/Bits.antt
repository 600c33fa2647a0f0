-- ===== src/Prelude/Bits.antt =====
-- Laws of `&`, `|` and `^` at variables.
mod Step
pub mod Xor
pub mod Fields
pub mod Single
pub use Step.{bit_and_step, bit_or_step, bit_xor_step}
