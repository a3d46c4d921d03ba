-- ===== src/App.antt =====
-- The application, app/: its options and its life.
pub mod Configuration
pub mod Precedence
pub mod Life
pub mod Order
