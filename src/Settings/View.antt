-- ===== src/Settings/View.antt =====
-- settings-tui/view.go: what the application shows. The environment and the styled view of the
-- terminal library are left out: `renderLines` and `View` yield lines of text.
pub mod Style
pub mod Frame
pub mod Rows
pub mod Dialog
pub mod Panes
pub mod Screen
pub mod Height
pub mod PanesFit
pub mod Fits
pub mod Layout
pub mod Styled
pub mod Reached
pub mod Scroll
