-- ===== src/Permissions.antt =====
-- engine/permissions.go: the permission bits, the channel patterns, and the checker over them.
pub mod Bits
pub mod Pattern
pub mod Checker
pub mod Checking
mod Tests
