-- ===== src/Core.antt =====
-- native/core: the timers of a worker and the workers of the process.
pub mod TimerWheel
pub mod Workers
pub mod Switches
