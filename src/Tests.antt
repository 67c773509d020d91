-- ===== src/Tests.antt =====
-- The theorems at concrete inputs, and runs of the code.
mod Acceptor
mod Common
mod Config
mod Login
mod Network
mod Queries
mod Server
mod Status
mod Worlds
