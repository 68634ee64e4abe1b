-- ===== src/Store.antt =====
-- The client's store (yeditor_client/src/app/website/store).
pub mod Common
pub mod Auth
pub mod Codepad
pub mod Dashboard
pub mod Action
pub mod Website
