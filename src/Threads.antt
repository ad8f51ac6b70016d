-- ===== src/Threads.antt =====
-- task1_process_threading: threads over shared mutexes.
pub mod Deadlock
pub mod Counter
pub mod Scheduler
mod Tests
