-- ===== src/Mm.antt =====
-- kernel/mm: physical frames and the kernel heap.
pub mod Pmm
pub mod Heap
