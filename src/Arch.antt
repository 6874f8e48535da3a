-- ===== src/Arch.antt =====
-- src/arch/i386: the descriptor tables and interrupts.
pub mod Gdt
pub mod Interrupts
mod Tests
