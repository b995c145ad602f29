-- ===== src/ServerPlayer.antt =====
-- src/server/serverplayer.cpp
pub mod Status
pub mod Disconnect
pub mod Frames
pub mod Apart
pub mod Session
pub mod Store
