-- ===== src/Tests.antt =====
-- Concrete inputs at which the theorems of the library apply.
pub mod Memory
pub mod Tasks
pub mod User
pub mod Load
pub mod Fs
