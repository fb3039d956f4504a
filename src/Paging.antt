-- ===== src/Paging.antt =====
-- src/common/paging.c: the four levels of page tables, mapping and translation of addresses.
pub mod Defs
pub mod Map
pub mod Translate
pub mod Entry
pub mod Run
pub mod MapRun
pub mod MapAt
pub mod MapPhysical
pub mod Spot
pub mod Current
pub mod SpotRun
pub mod CurrentRun
pub mod Unmap
pub mod UnmapRun
mod Examples
