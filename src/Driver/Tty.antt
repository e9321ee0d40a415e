-- ===== src/Driver/Tty.antt =====
-- kernel/driver/tty.c, the terminal: the console, the line that is typed, and the requests of the
-- processes that read and write it.
pub mod Console
pub mod Line
pub mod Screen
pub mod Requests
pub mod Serve
pub mod Edit
pub mod Lines
mod Tests
