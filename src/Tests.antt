-- ===== src/Tests.antt =====
-- Tests by evaluation, and the theorems at concrete inputs.
mod ServerLoop
mod ServerCalls
mod ServerDrain
mod ServerSystem
mod ServerSettings
mod ServerConnections
mod ClientSockets
mod ClientOpen
mod ClientLoop
mod ClientTargets
mod ClientSystem
mod ClientQueue
mod Demos
mod Integration
mod Texts
