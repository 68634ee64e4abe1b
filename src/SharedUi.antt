-- ===== src/SharedUi.antt =====
-- The components that the pages share (yeditor_client/src/app/website/shared-ui).
pub mod Monaco
pub mod Loading
pub mod Xterm
