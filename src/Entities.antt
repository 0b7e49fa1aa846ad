-- ===== src/Entities.antt =====
-- entities.go: entity records by domain, and the registry that caches them.
pub mod Readings
pub mod Controls
pub mod Inputs
pub mod Devices
pub mod Climate
pub mod Domain
pub mod Table
pub mod Registry
pub mod Tables
pub mod Handle
pub mod Validity
pub mod Registering
pub mod Updating
pub mod Messages
pub mod Handling
pub mod History
pub mod States
pub mod Frames
mod Tests
