-- ===== src/Protocol.antt =====
-- gps_gateway/protocol: the GT06 wire protocol.
pub mod Bytes
pub mod Crc
pub mod Constants
pub mod Framing
pub mod Result
pub mod Codec
