-- ===== src/Files.antt =====
-- task3_filesystem_security: users, file metadata, permissions, encryption and the audit log.
pub mod Sha
pub mod Crypto
pub mod Disk
pub mod Audit
pub mod Perms
pub mod Auth
pub mod Ops
pub mod Menu
mod Tests
