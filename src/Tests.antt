-- ===== src/Tests.antt =====
-- Concrete runs of the properties.
mod Data
mod NetworkRuns
mod ClientRuns
mod RoomRuns
mod ServerRuns
mod SystemRuns
mod LoginRuns
mod ConsoleRuns
mod UtilRuns
mod LuaRuns
mod HostRuns
