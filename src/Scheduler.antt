-- ===== src/Scheduler.antt =====
-- src/scheduler.h, src/scheduler.cpp and src/schd-priority.cpp: the daemon that gives out the tokens
-- of one GPU.
pub mod Client
pub mod State
pub mod Config
pub mod Priority
pub mod Select
pub mod Tokens
pub mod Message
pub mod Parts
pub mod Accounting
pub mod Steps
pub mod Invariant
pub mod Preserve
pub mod Selection
pub mod Reached
pub mod Quota
pub mod Order
pub mod Limits
pub mod Memory
pub mod Usage
pub mod Progress
pub mod Settings
pub mod Service
pub mod Served
pub mod Rounds
pub mod Timer
pub mod Main
pub mod Composed
pub mod Granted
pub mod Overrun
pub mod Outbox
pub mod Answered
pub mod Startup
pub mod Begun
pub mod Full
pub mod Dumped
