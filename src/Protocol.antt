-- ===== src/Protocol.antt =====
-- internal/protocol.
pub mod Lbs
pub mod Frame
pub mod Packet
pub mod Parsed
pub mod Crc
pub mod Ack
pub mod Commands
pub mod Login
pub mod Status
pub mod Gps
pub mod Iccid
pub mod WifiLbs
pub mod Summary
pub mod Tests
