-- ===== src/Base/Bits.antt =====
-- Single bits of a word, what `&`, `|`, `^` and `~` do to them, and fields as arithmetic.
mod Digit
pub mod Laws
pub mod Field
pub mod Table
pub use Digit.{bit, bit_and_digit, bit_or_digit, bit_xor_digit}
