-- ===== src/Models.antt =====
-- The shared models (yeditor_client/src/app/website/shared/models).
pub mod Language
pub mod Engine
