-- ===== src/Ui.antt =====
-- src/ui: the terminal and the desktop.
pub mod Terminal
pub mod Desktop
