-- ===== src/Cpu.antt =====
-- src/common/cpu.c: the time stamp counter and the model specific registers.
pub mod Defs
pub mod Wait
pub mod Registers
mod Examples
