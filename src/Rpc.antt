-- ===== src/Rpc.antt =====
-- Messages between servers over NATS: rpc/ and rpc/mq/.
pub mod Nats
pub mod Subjects
pub mod Channel
pub mod Client
pub mod Handlers
pub mod Facade
pub mod Delivery
pub mod Ending
pub mod Stream
