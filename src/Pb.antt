-- ===== src/Pb.antt =====
-- The generated protobuf package and its registry (pb/api.pb.go, pb/registry.go).
pub mod Types
pub mod Listing
pub mod States
pub mod Commands
pub mod Session
pub mod Bluetooth
pub mod Kind
pub mod Registry
pub mod Message
