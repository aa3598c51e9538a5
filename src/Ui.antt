-- ===== src/Ui.antt =====
-- The user interface (src/ui), as far as it is not windows.
pub mod Offer
pub mod Services
pub mod Window
pub mod Upload
pub mod Settings
pub mod Startup
pub mod Exchange
pub mod Tray
pub mod Probe
pub mod Buttons
pub mod Tests
