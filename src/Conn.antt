-- ===== src/Conn.antt =====
-- The connection and its engine: go/connection.go, and the parts of go/engine.go that drive it.
pub mod State
pub mod SendQueue
pub mod Engine
pub mod Transfer
pub mod Sched
mod Tests
