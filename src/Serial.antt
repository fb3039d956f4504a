-- ===== src/Serial.antt =====
-- src/common/serial.c: the serial line.
pub mod Defs
pub mod Sent
mod Examples
