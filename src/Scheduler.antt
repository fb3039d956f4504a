-- ===== src/Scheduler.antt =====
-- src/common/scheduler.c: the list of processes and the switch between them.
pub mod Defs
pub mod Switch
pub mod Ring
mod Examples
