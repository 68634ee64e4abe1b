-- ===== src/Store/Dashboard.antt =====
-- The dashboard's features of the store (store/dashboard).
mod Tests
pub mod Questions
pub mod Databases
pub mod Pads
pub mod Settings
