-- ===== src/Segment.antt =====
-- src/common/gdt.c: the segment table.
pub mod Defs
pub mod Task
mod Examples
