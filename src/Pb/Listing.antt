-- ===== src/Pb/Listing.antt =====
-- The ListEntities*Response messages that the client reads (pb/api.pb.go).
mod Readings
mod Controls
mod Heating
pub use Readings.*
pub use Controls.*
pub use Heating.*
