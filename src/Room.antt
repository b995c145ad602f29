-- ===== src/Room.antt =====
-- src/server/room.cpp, roombase.cpp and roomthread.cpp, a part of the room's life to a module.
pub mod Basics
pub mod Observers
pub mod Stats
pub mod Joining
pub mod Leaving
pub mod Game
pub mod Commands
pub mod Seats
pub mod Seating
pub mod Ownership
pub mod BeforeGame
pub mod Handover
pub mod RunAway
pub mod References
