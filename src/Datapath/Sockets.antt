-- ===== src/Datapath/Sockets.antt =====
-- What the backends of native/datapath/DatapathPOSIX.cpp and DatapathWindows.cpp share: a received
-- datagram, and the loop around a receiving system call. `W` is the state of the operating system. A
-- call of the system gives its result or the number of its error, and `ErrorNumbers` are those that
-- the system's headers define.
pub mod Retry
pub mod Batch
pub mod Posix
pub mod Windows
pub mod Entry
mod Tests
use ffl_p2p.Prelude.{
  ℕ, zero, suc, Bool, true, false, ◌||◌, Option, none, some, List, ◌==◌, if◌then◌else◌, Result, ok,
  err,
}

-- `juice_udp_recv_datagram_t`: `bytes` and `source_address` are the bytes of their sizes.
pub record Datagram : Type 0 where
  pub bytes : List ℕ
  pub source_address : List ℕ

pub record ErrorNumbers : Type 0 where
  pub einval : ℕ
  pub enosys : ℕ
  pub eopnotsupp : ℕ
  pub enoprotoopt : ℕ
  pub eagain : ℕ
  pub ewouldblock : ℕ
  pub econnreset : ℕ
  pub enetreset : ℕ
  pub econnrefused : ℕ
  pub emsgsize : ℕ
  pub eio : ℕ

-- `isIgnoredUDPError` of both backends.
unfoldable pub is_ignored_udp_error : ErrorNumbers → ℕ → Bool
is_ignored_udp_error c error =
    error == c.econnreset || error == c.enetreset || error == c.econnrefused

abbrev pub is_ignored : {A : Type 0} → ErrorNumbers → Result ℕ A → Bool
is_ignored c (ok a) = false
is_ignored c (err error) = is_ignored_udp_error c error

-- The loop `for (;;)` of every receive: it calls again after an ignored error. `none` is the end of
-- the fuel.
unfoldable pub retry :
    {A W : Type 0} → ErrorNumbers → (W → W × Result ℕ A) → ℕ → W → W × Option (Result ℕ A)
retry c call zero w = (w, none)
retry c call (suc n) w =
    let (w', r) = call w in
    let again = retry c call n w' in if is_ignored c r then again else (w', some r)

abbrev pub then_received :
    {A B W : Type 0} → W × Option (Result ℕ A) → (W → Result ℕ A → W × Option B) → W × Option B
then_received (w, none) f = (w, none)
then_received (w, some r) f = f w r
