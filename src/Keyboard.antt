-- ===== src/Keyboard.antt =====
-- src/common/keyboard.c: the handler of the keyboard's interrupt and the tables of its keys.
pub mod Normal
pub mod Shifted
pub mod Defs
pub mod Echo
pub mod Shift
pub mod Keys
mod Examples
