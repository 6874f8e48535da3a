-- ===== src/Drivers.antt =====
-- src/drivers: the keyboard and the mouse.
pub mod Keyboard
pub mod Mouse
