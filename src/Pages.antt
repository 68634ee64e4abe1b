-- ===== src/Pages.antt =====
-- The pages of the website (yeditor_client/src/app/website/pages).
pub mod Edit
pub mod Dashboard
