-- ===== src/Common/Bits.antt =====
-- `&`, `|` and `^` at variables: one equation for the lowest digit of each, then the laws that the
-- components use.
mod Digit
mod Fields
pub mod Halves
pub mod Xor
pub use Digit.{bit_and_step, bit_or_step, bit_xor_step}
unfoldable pub use Fields.*
