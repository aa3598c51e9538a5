-- ===== src/Store.antt =====
-- The store (src/store): settings and services, and the context that keeps them on disk.
pub mod Types
pub mod Settings
pub mod Services
pub mod Context
pub mod Utils
pub mod Autostart
pub mod Resolve
pub mod Tests
