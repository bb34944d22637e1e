-- ===== src/Server.antt =====
-- The central server: packages server/room, server/lobby and what they use of package protocol.
pub mod Accounts
pub mod Lobby
pub mod Logic
pub mod Manager
pub mod Proxy
pub mod Room
pub mod Storage
pub mod Token
