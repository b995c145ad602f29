-- ===== src/System.antt =====
-- The server as a whole: whatever reaches it, as a step of the world.
mod Shrinks
mod Leaving
mod Games
mod Sessions
pub mod Bounded
mod Creation
mod RoomPackets
mod LobbyPackets
mod Refresh
mod Commands
mod Arrivals
pub mod Steps
mod Console
pub mod Capacity
