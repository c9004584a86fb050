-- ===== src/Harness.antt =====
-- test.py, the script that tests the server and the subscriber as processes.
pub mod Suite
pub mod Results
pub mod Topics
pub mod Process
pub mod Helpers
pub mod Checks
pub mod Basic
pub mod Wildcards
pub mod Main
pub mod Effects
pub mod Verdicts
pub mod Whole
mod Samples
