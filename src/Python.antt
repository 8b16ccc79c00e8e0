-- ===== src/Python.antt =====
-- native/Quic.cpp: the objects that Python has of the QUIC transport.
pub mod Credentials
pub mod Session
pub mod Ports
mod Tests
