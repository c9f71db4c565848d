-- ===== src/Launcher.antt =====
-- internal/launcher: the dispatcher `ipgw`.
pub mod Mode
pub mod Version
pub mod Execute
pub mod Tests
