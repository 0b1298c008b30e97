-- ===== src/Samples.antt =====
-- golang_test: the small programs on goroutines, panics, contexts and scanners, each in a module.
pub mod WaitGroup
pub mod Recover
pub mod Scan
pub mod Generator
pub mod Service
mod Examples
