-- ===== src/Boot.antt =====
-- The boot information (src/common/multiboot2.c), and what src/common/main.c makes of it.
pub mod Tags
pub mod Find
pub mod Memory
pub mod Start
pub mod Firmware
pub mod Reported
mod Examples
