-- ===== src/Demo.antt =====
-- The demo programs, demo/: an application server, a gate and a login server over the framework.
pub mod Apps
pub mod Json
pub mod Login
pub mod Meeting
