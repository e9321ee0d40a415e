-- ===== src/Sys.antt =====
-- kernel/sys: the services behind the system calls.
pub mod Mq
pub mod Sysd
