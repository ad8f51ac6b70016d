-- ===== src/Paging.antt =====
-- task2_memory_management/paging_sim.c: page replacement by FIFO and by LRU.
pub mod Frames
pub mod Fifo
pub mod Lru
mod Tests
