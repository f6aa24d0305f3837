-- ===== src/Conn.antt =====
-- infrastructure/peer/conn: the session engine.
pub mod Stream
pub mod Messages
pub mod Session
pub mod Dispatch
pub mod Client
mod Samples
mod Tests
