-- ===== src/Lock.antt =====
-- src/common/lock.c: the spin lock, with any number of processors that call it in any order.
pub mod Defs
pub mod Exclusion
mod Examples
