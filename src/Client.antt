-- ===== src/Client.antt =====
-- client.go, framer.go, commands.go and the parts of services.go and logs.go that are methods of Client.
pub mod Framer
pub mod State
pub mod Exchange
pub mod Exchanged
pub mod Handshake
pub mod Greeting
pub mod Requests
pub mod Subscribed
pub mod States
pub mod Backoff
pub mod Connect
pub mod Welcomed
pub mod Connected
mod Tests
