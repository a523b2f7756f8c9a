-- ===== src/PodManager.antt =====
-- src/pod-manager.cpp: the daemon of one Pod, between the hook libraries and the scheduler.
pub mod State
pub mod Launch
pub mod Threads
pub mod Startup
pub mod Started
pub mod Requests
pub mod Asked
pub mod Round
pub mod Accounts
pub mod Recovery
pub mod Bursts
pub mod Exchange
pub mod Launches
pub mod Counts
pub mod Changes
pub mod Inside
pub mod Sleepers
pub mod Slept
pub mod Blocked
