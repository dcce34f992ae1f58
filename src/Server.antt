-- ===== src/Server.antt =====
-- internal/server/server.go: the sessions, their sockets and the ThingsBoard uplink.
pub mod Listener
pub mod State
pub mod Uplink
pub mod Handle
pub mod Drain
pub mod Connection
pub mod SafeConn
pub mod Effects
pub mod Sessions
pub mod Keeps
pub mod WellFormed
pub mod Reconnect
pub mod Directory
pub mod Trace
pub mod Introduced
pub mod Calls
pub mod Tests
