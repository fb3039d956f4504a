-- ===== src/MemoryPhysical.antt =====
-- src/common/memory_physical.c: the allocator of physical pages, a table with one bit for each page.
pub mod Defs
pub mod Scan
pub mod Valid
pub mod Allocate
pub mod Free
pub mod Reserve
pub mod ReserveRange
pub mod Query
mod Examples
