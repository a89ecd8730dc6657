-- ===== src/Text.antt =====
-- Python's `str` and `bytes` as lists of code points and of bytes, with the methods that the
-- program calls: `split`, `join`, `strip`, `replace`, `encode`, and `int` and `str` of integers.
-- Digits beyond ASCII, which `int` reads too, are not modelled.
mod Defs
mod Parts
mod Strip
mod Number
mod Integer
mod Encode
unfoldable pub use Defs.*
pub use Parts.*
pub use Strip.*
pub use Number.*
pub use Integer.*
pub use Encode.*
