-- ===== src/Settings.antt =====
-- settings-tui: the management application.
pub mod Boxes
pub mod Pod
pub mod Kube
pub mod Rows
pub mod Model
pub mod Startup
pub mod View
