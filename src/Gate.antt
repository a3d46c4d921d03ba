-- ===== src/Gate.antt =====
-- The gate: client sessions, their manager and their connections, gate/.
pub mod Session
pub mod Manager
pub mod Run
pub mod Arrival
pub mod Handle
pub mod Tcp
pub mod Ws
pub mod Server
