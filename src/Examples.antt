-- ===== src/Examples.antt =====
-- Tests, and the theorems at concrete inputs.
pub mod Buffers
pub mod Formats
pub mod Lines
pub mod Connections
pub mod Incoming
pub mod Media
pub mod Servers
