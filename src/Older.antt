-- ===== src/Older.antt =====
-- docker/kubeshare-gemini-scheduler/hook.cpp: an older version of the hook library that the repository
-- keeps.
pub mod State
pub mod Tokens
pub mod Memory
pub mod Symbols
pub mod Intercept
pub mod Functions
pub mod Agreement
pub mod Sizes
pub mod Calls
pub mod Launches
pub mod Addresses
pub mod Lookups
pub mod Connection
