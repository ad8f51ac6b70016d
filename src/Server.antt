-- ===== src/Server.antt =====
-- task4_network_ipc/server.c: the key-value server.
pub mod Store
pub mod Input
pub mod Session
pub mod System
mod Tests
