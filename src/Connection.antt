-- ===== src/Connection.antt =====
-- src/connection.h and src/connection.c.
pub mod Tests
pub mod Write
pub mod InFlight
pub mod Memory
pub mod Frame
pub mod Kept
pub mod Callbacks
pub mod Shutdown
pub mod Lifecycle
pub mod Sent
pub mod Compare
pub mod Init
