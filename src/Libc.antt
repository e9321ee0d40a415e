-- ===== src/Libc.antt =====
-- The C library, lib/libc, which the kernel and the user programs share.
pub mod Strings
pub mod Stdio
pub mod Printf
