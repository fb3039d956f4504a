-- ===== src/Word.antt =====
-- The machine words on which the C code works by `|`, `&`, `~`, `<<` and `>>`.
pub mod Bits
pub mod Shift
pub mod Bytes
pub mod Join
pub mod Align
