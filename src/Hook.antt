-- ===== src/Hook.antt =====
-- src/hook.cpp and src/hook.h: the library that stands before the CUDA driver in a client's process.
pub mod State
pub mod Tokens
pub mod Memory
pub mod Symbols
pub mod Intercept
pub mod Functions
pub mod Erased
pub mod Rooms
pub mod Quotas
pub mod Managed
pub mod Accounts
pub mod Noted
pub mod Synced
pub mod Endpoints
pub mod Periods
pub mod Addresses
pub mod Lookups
pub mod Connection
pub mod Tracking
pub mod Waits
pub mod Ends
