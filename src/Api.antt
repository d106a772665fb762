-- ===== src/Api.antt =====
-- The parts of the API that decide without a database.
pub mod Throttle
pub mod Http
pub mod Account
pub mod Alerts
pub mod Commands
pub mod Trackers
pub mod GeofenceReport
pub mod Driving
pub mod Live
mod Tests
pub mod Users
pub mod Shop
mod RouterTests
mod ShopTests
mod RepositoryTests
pub mod Geofences
