-- ===== src/Processors.antt =====
-- src/common/main.c: the start of the other processors.
pub mod Defs
pub mod Startup
pub mod Started
mod Examples
