-- ===== src/Protocol/Codec.antt =====
-- gps_gateway/protocol/codec.py. Texts are lists of code points, and log lines are left out.
pub mod Build
pub mod Login
pub mod Clock
pub mod Cell
pub mod Location
pub mod Reply
mod Tests
