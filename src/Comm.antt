-- ===== src/Comm.antt =====
-- src/comm.h and src/comm.cpp: the messages between hook library, Pod manager and scheduler, and the
-- retry loop that the network calls go through.
pub mod Bytes
pub mod Buffer
pub mod Message
pub mod RoundTrip
pub mod Answers
pub mod Attempt
