-- ===== src/Pages/Dashboard.antt =====
-- The pages of the dashboard (pages/dashboard).
pub mod Confirm
pub mod QuestionEditor
pub mod QuestionPreview
pub mod SettingsPage
pub mod PadsVisit
