-- ===== src/Console.antt =====
-- src/common/console.c: the text console, with a history of 2500 lines and a screen of 25.
pub mod Defs
pub mod Calls
pub mod Screen
pub mod Clear
pub mod Cursor
pub mod Stays
pub mod Numbers
mod Examples
