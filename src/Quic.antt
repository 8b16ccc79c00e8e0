-- ===== src/Quic.antt =====
-- native/quic/Connection.h and Connection.cpp: one QUIC connection, owned by a worker.
pub mod Library
pub mod Protocol
pub mod Schedule
pub mod Setup
pub mod Credentials
pub mod Connection
