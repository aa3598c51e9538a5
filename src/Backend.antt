-- ===== src/Backend.antt =====
-- The backend program (src/backend): its messages, the tunnels it keeps, and its command loop.
pub mod Message
pub mod Connector
pub mod Controller
pub mod Engine
pub mod Server
pub mod Client
pub mod Options
pub mod Carrier
pub mod Loading
pub mod Tests
