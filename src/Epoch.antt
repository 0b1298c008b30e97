-- ===== src/Epoch.antt =====
-- epoch-extractor/main.go: the proposer schedules of the current and the next epoch.
pub mod Assignments
pub mod Schedule
pub mod Runner
pub mod Start
mod Examples
