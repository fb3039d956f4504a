-- ===== src/Interrupt.antt =====
-- src/common/idt.c: the interrupt descriptor table.
pub mod Defs
pub mod Initialize
pub mod Gates
pub mod Handlers
mod Examples
