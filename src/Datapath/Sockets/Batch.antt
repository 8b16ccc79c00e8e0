-- ===== src/Datapath/Sockets/Batch.antt =====
-- DatagramBatchReceiver of native/platform/DatagramBatch.cpp. The caller's buffers all have room and
-- addresses. What a system call writes into a message is `Message`.
use ffl_p2p.Prelude.{
  ℕ, Bool, false, not, ◌||◌, List, length, ltb, leb, ◌==◌, if◌then◌else◌, Result, ok, err,
}
use ffl_p2p.Datapath.Sockets.{ErrorNumbers}

-- `DatagramReceiveBuffer` after a receive: the bytes of `dataSize` and of `sourceAddressSize`, and
-- MSG_TRUNC of the flags.
pub record Message : Type 0 where
  pub bytes : List ℕ
  pub source_address : List ℕ
  pub truncated : Bool

abbrev pub max_batch_size : ℕ
max_batch_size = 64

-- What the build is for. Only the first two can run on Linux.
pub data Target : Type 0 where
  linux cosmopolitan other : Target

-- `isSupported`, where `is_linux` is what the host is.
unfoldable pub is_supported : Target → Bool → Bool
is_supported Target.linux is_linux = is_linux
is_supported Target.cosmopolitan is_linux = is_linux
is_supported Target.other is_linux = false

-- What `sys_recvmmsg` gives: a negative number, by its size, or the messages.
pub data RawResult : Type 0 where
  negative : ℕ → RawResult
  messages : List Message → RawResult

-- `normalizeSyscallError` of the negative result -n.
unfoldable pub normalize_syscall_error : ErrorNumbers → ℕ → ℕ → ℕ
normalize_syscall_error c errno n = if n == 1 then errno else if leb n 4095 then n else c.eio

unfoldable pub finish_raw : ErrorNumbers → ℕ → ℕ → RawResult → Result ℕ (List Message)
unfolding normalize_syscall_error
finish_raw c capacity errno (negative n) = err (normalize_syscall_error c errno n)
finish_raw c capacity errno (messages ms) = if ltb capacity (length ms) then err c.eio else ok ms

-- The calls: glibc's `recvmmsg`, and Cosmopolitan's, whose result comes with what `errno` is then.
pub record ReceiveCalls (W : Type 0) : Type 0 where
  pub recvmmsg : ℕ → W → W × Result ℕ (List Message)
  pub sys_recvmmsg : ℕ → W → W × ℕ × RawResult

abbrev pub call_batch :
    {W : Type 0} → ErrorNumbers → ReceiveCalls W → Target → ℕ → W → W × Result ℕ (List Message)
call_batch c calls Target.linux capacity w = calls.recvmmsg capacity w
call_batch c calls Target.cosmopolitan capacity w =
    let (w', errno, raw) = calls.sys_recvmmsg capacity w in (w', finish_raw c capacity errno raw)
call_batch c calls Target.other capacity w = (w, err c.enosys)

-- `receive`
unfoldable pub receive :
    {W : Type 0}
    → ErrorNumbers
    → ReceiveCalls W
    → Target
    → Bool
    → ℕ
    → W
    → W × Result ℕ (List Message)
unfolding is_supported finish_raw
receive c calls target is_linux capacity w =
    if capacity == 0 || ltb max_batch_size capacity
    then (w, err c.einval)
    else if not (is_supported target is_linux)
    then (w, err c.enosys)
    else call_batch c calls target capacity w
