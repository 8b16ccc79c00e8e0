-- ===== src/Lib.antt =====
-- ffl_p2p: a model of the native runtime of this repository (native/), which carries one QUIC stream
-- between two peers over an ICE agent, with the theorems that make it correct.
--
-- The parts and how they interact. An application thread starts a Connection, queues data, takes
-- received data and closes. Each connection belongs to one Worker of a WorkerPool: whatever happens
-- to it is an operation in its queue, and the worker, once the connection has put itself into the
-- worker's deque, runs up to 64 of them. The datapath's thread hands datagrams in, in batches over
-- pooled buffers; ngtcp2 calls back with what they carry; packets go out through the ICE binding.
-- A send that the socket does not take is kept and retried by a timer of the worker's wheel.
--
-- Which file models which part:
--   Core/TimerWheel     native/core/TimerWheel.cpp: update, remove, getNextExpiry, takeExpired.
--   Core/Workers        the worker count of native/core/RuntimeConfiguration.cpp, and WorkerPool of
--                       native/core/Worker.cpp.
--                       Lifecycle: starting and stopping workers and the pool. Loop: Worker::run over
--                       all connections of a worker, with the timers, and its end.
--   Core/Switches       the switches of native/core/RuntimeConfiguration.cpp.
--   Datapath/Buffer     ReceiveBuffer and StreamReceiveBuffer of native/datapath/Buffer.cpp.
--   Datapath/Batch      ReceiveBatch and StreamReceiveBatch of native/datapath/Buffer.cpp.
--   Datapath/Pool       BufferPool of native/datapath/Buffer.h: the free list in the buffers' memory.
--   Datapath/Sockets    the backends of native/datapath/DatapathPOSIX.cpp and DatapathWindows.cpp,
--                       DatagramBatchReceiver of native/platform/DatagramBatch.cpp, and what
--                       native/datapath/Datapath.cpp offers to libjuice over them.
--   Ice/Binding         native/ice/JuiceBinding.cpp.
--   Platform            Event and Thread of native/platform/Platform.cpp, on POSIX and on Windows.
--   Quic/Credentials    native/quic/Credentials.cpp.
--   Quic/Setup          the set-up and the release of TLS and ngtcp2 in native/quic/Connection.cpp.
--   Quic/Library        what the runtime calls: ngtcp2, the ICE agent, the clock (a parameter).
--   Quic/Protocol       Connection::ProtocolState, writeOnePacket and the acknowledgement callback of
--                       native/quic/Connection.cpp, with the pipe of bytes that they stand for.
--   Quic/Schedule       how a connection comes to its worker: native/quic/Connection.cpp with
--                       native/core/Worker.cpp, as a step relation over threads.
--   Quic/Connection     the rest of native/quic/Connection.cpp: Receive (received stream bytes and
--                       credit), Callbacks (ngtcp2's calls), Transport (sends and their retry),
--                       Flush (flushPackets), Operations (the worker's loop and its handlers),
--                       Application (what the application calls), Creation (the constructor).
--   Agent               the agent object of native/P2P.c: its queues of events and datagrams, the locks
--                       that wake its consumers, and the data sink of a QUIC runtime. Lifetime: what
--                       it allocates and frees, with native/Juice.c. Methods: its methods for Python.
--   Python              what Python has of the rest: Credentials and Session of native/Quic.cpp, and
--                       Ports, the port mappings of native/P2P.c over native/Plum.c.
--   Prelude             shared names, Boolean tests on numbers, lists measured by them.
-- Files named Tests hold concrete runs.
--
-- The state of a part is a record with the source's fields, and an operation is a function with the
-- source's name, in another spelling, from the state to the state and its result. A call that throws
-- gives `err`. Code of libraries is a field of `Outside`, over a type `W` that stands for the state
-- of everything outside, and the theorems hold for every such record. `uint64_t` additions wrap.
--
-- Bounds and fuel: the loops over buffers, packets and operations recurse on lists or on the source's
-- own budgets (512 packets for a flush). The loop over aggregates and `releaseChain` take fuel: 512
-- is enough for the first, because each round takes at least one packet off its budget, and the
-- chain's length for the second. `StreamReceiveBatch::append` takes the number of bytes as fuel.
--
-- The receive loops of the backends call again after an error that UDP ignores. They take fuel, and
-- more fuel than there are such errors is enough.
--
-- In Core/Workers/Loop one iteration of a worker is one step; Quic/Schedule has the finer steps of the
-- threads, for one connection. Quic/Setup stands beside the calls of the set-up in Quic/Connection,
-- which take its result from `Outside`.
--
-- Not modelled: the clock and the socket addresses of native/platform/Platform.cpp, which wrap a call;
-- the diagnostics, which the default build leaves out, but for the counters of the buffer pool; the
-- parsing of Python's arguments, the registration of types and modules, the dictionaries made of
-- statistics and mappings, and the release of an object's memory; the functions of native/Juice.c that
-- only hand arguments on, and the text of log lines; blocking waits, of which only what comes before and
-- after stands here. Mutexes are taken to exclude each other, and a connection to stay while it is used.
pub mod Prelude
pub mod Core
pub mod Datapath
pub mod Ice
pub mod Platform
pub mod Quic
pub mod Agent
pub mod Python
