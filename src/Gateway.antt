-- ===== src/Gateway.antt =====
-- gps_gateway: the connections of the trackers, their commands, and the way to the database.
pub mod Text
pub mod Registry
pub mod Admission
pub mod Commands
pub mod Session
pub mod Batching
mod Tests
