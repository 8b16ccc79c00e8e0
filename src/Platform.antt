-- ===== src/Platform.antt =====
-- native/platform/Platform.cpp: events and threads.
pub mod Events
pub mod Threads
