-- ===== src/Datapath.antt =====
-- native/datapath: the buffers between sockets and connections.
pub mod Buffer
pub mod Batch
pub mod Pool
pub mod Sockets
