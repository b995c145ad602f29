-- ===== src/Lobby.antt =====
-- src/server/lobby.cpp
pub mod Members
pub mod Commands
pub mod Arrivals
pub mod Entering
pub mod Passwords
