-- ===== src/Heap.antt =====
-- src/common/memory.c: the helpers on bytes and the heap.
pub mod Defs
pub mod Chain
pub mod Allocate
pub mod Free
pub mod Bytes
mod Examples
