-- ===== src/Tests.antt =====
-- The theorems at concrete inputs, with integers of thousandths for the doubles.
pub mod Scheduler
pub mod Passes
pub mod Rounds
pub mod Lines
pub mod Comm
pub mod Predictor
pub mod PodManager
pub mod Hook
pub mod Starts
pub mod Launches
pub mod Addresses
pub mod Older
pub mod Tokens
pub mod Timers
pub mod Waits
pub mod Synced
pub mod Asked
