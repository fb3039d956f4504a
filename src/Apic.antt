-- ===== src/Apic.antt =====
-- src/common/apic.c: the interrupt controllers.
pub mod Defs
pub mod Entries
mod Examples
