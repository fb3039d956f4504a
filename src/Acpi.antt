-- ===== src/Acpi.antt =====
-- src/common/acpi.c: the tables in which the firmware describes the machine.
pub mod Defs
pub mod Madt
pub mod First
pub mod Checksum
pub mod Entries
pub mod Print
pub mod Printed
mod Examples
