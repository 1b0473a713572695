-- ===== src/Bits.antt =====
-- Binary digits of numbers: `&`, `|`, `!`, shifts and masks, described digit by digit.
mod Step
mod Digit
mod Masks
mod OneBit
mod Field
pub use Step.{bit_or_step, bit_and_step}
unfoldable pub use Digit.*
pub use Masks.*
pub use OneBit.*
pub use Field.*
