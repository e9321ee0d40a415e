-- ===== src/Driver.antt =====
-- The drivers, kernel/driver.
pub mod Tty
pub mod Keyboard
