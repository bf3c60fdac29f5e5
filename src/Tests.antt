-- ===== src/Tests.antt =====
-- Runs of the theorems at concrete inputs.
mod Data
mod Messages
mod Streams
mod Values
mod Answers
mod Connections
mod Service
mod Sockets
mod Servers
