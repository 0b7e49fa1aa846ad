-- ===== src/Commands.antt =====
-- commands.go: the commands to the entities of a device.
pub mod Options
pub mod Requests
pub mod Types
pub mod Methods
pub mod Sending
pub mod Checked
mod Tests
