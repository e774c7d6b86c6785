-- ===== src/Rooms.antt =====
-- The live rooms of server/src/room_hub.rs.
pub mod Mix
pub mod Mixer
pub mod Hub
mod Examples
