-- ===== src/Pci.antt =====
-- src/common/pci.c: the devices on the PCI buses.
pub mod Classes
pub mod Defs
pub mod Read
pub mod Scan
mod Examples
