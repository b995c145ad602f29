-- ===== src/Server.antt =====
-- src/server/server.cpp, auth.cpp
pub mod Ban
pub mod Rooms
pub mod ZeroRoom
pub mod Auth
pub mod Login
pub mod Gate
pub mod Connections
