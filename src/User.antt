-- ===== src/User.antt =====
-- The libraries of the programs that run on the kernel.
pub mod Malloc
pub mod Shell
pub mod Format
pub mod Int64
pub mod Search
pub mod Qsort
