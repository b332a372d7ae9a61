-- ===== src/Tests.antt =====
-- The theorems at concrete inputs, and runs of the definitions.
pub mod Cap
pub mod Fixtures
pub mod Names
pub mod Login
pub mod Boxes
pub mod Starting
pub mod Serving
pub mod Objects
pub mod Answers
pub mod Showing
pub mod Dialogs
pub mod Sessions
pub mod Processes
pub mod Access
pub mod Races
