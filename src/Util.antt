-- ===== src/Util.antt =====
-- src/common/util.c: strings and their conversion from numbers.
pub mod Strings
pub mod Numbers
pub mod Digits
pub mod Reverse
pub mod Print
pub mod Format
pub mod Compare
pub mod Plain
mod Examples
