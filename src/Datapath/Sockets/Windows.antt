-- ===== src/Datapath/Sockets/Windows.antt =====
-- WindowsDatapathBackend of native/datapath/DatapathWindows.cpp. `receive_buffer` is what the last
-- receive wrote into receiveBuffer_, and `pending_address` the first pendingAddressSize_ bytes of
-- theirs. What a failed receive leaves in receiveBuffer_ is never read. The error numbers are those of
-- Winsock.
pub mod Segments
pub mod Emit
pub mod Receive
mod Tests
use ffl_p2p.Prelude.{
  ℕ, zero, suc, ◌+◌, ◌-◌, min, Bool, true, false, not, ◌&&◌, ◌||◌, Option, none, some, List, [],
  ◌∷◌, length, take, drop, ltb, leb, ◌==◌, if◌then◌else◌, is_empty, Result, ok, err,
}
use ffl_p2p.Datapath.Sockets.{Datagram, ErrorNumbers, retry, then_received}
use ffl_p2p.Datapath.Sockets.Batch.{Message}
use ffl_p2p.Datapath.Sockets.Posix.{AggregateResult, not_handled}

abbrev pub receive_buffer_size : ℕ
receive_buffer_size = 65535

pub record WindowsDatapathBackend : Type 0 where
  pub receive_buffer : List ℕ
  pub pending_address : List ℕ
  pub pending_offset : ℕ
  pub pending_bytes : ℕ
  pub pending_segment_size : ℕ
  pub active_socket : ℕ
  pub receive_msg : Bool
  pub receive_coalescing_disabled : Bool
  pub coalescing_supported : Bool
  pub coalescing_enabled : Bool
  pub initialized : Bool

-- A control message of a receive: whether it is a UDP_COALESCED_INFO of level IPPROTO_UDP that has
-- room for its value, and that value.
pub record Control : Type 0 where
  pub is_coalesced_info : Bool
  pub value : ℕ

pub record CoalescedMessage : Type 0 where
  pub bytes : List ℕ
  pub source_address : List ℕ
  pub controls : List Control

-- The calls of the system: those of `initializeSocket` tell whether they succeeded, and the receiving
-- ones write into a buffer of the size given.
pub record WindowsCalls (W : Type 0) : Type 0 where
  pub find_receive_msg : ℕ → W → W × Bool
  pub get_max_coalesced_size : ℕ → W → W × Bool
  pub set_receive_buffer_size : ℕ → W → W
  pub set_max_coalesced_size : ℕ → ℕ → W → W × Bool
  pub recvfrom : ℕ → ℕ → W → W × Result ℕ Message
  pub receive_msg : ℕ → ℕ → W → W × Result ℕ CoalescedMessage

abbrev pub front : WindowsDatapathBackend → Datagram
front b = record {
  bytes =
      take (min b.pending_segment_size b.pending_bytes) (drop b.pending_offset b.receive_buffer);
  source_address = b.pending_address;
}

abbrev pub without_front : WindowsDatapathBackend → WindowsDatapathBackend
without_front b =
    let segment_size = min b.pending_segment_size b.pending_bytes in
    record b {
      pending_offset = b.pending_offset + segment_size;
      pending_bytes = b.pending_bytes - segment_size;
    }

-- The loop of `emitPending`, over the room that is left.
unfoldable pub emit_loop : ℕ → WindowsDatapathBackend → List Datagram × WindowsDatapathBackend
emit_loop zero b = ([], b)
emit_loop (suc room) b =
    let (rest, b') = emit_loop room (without_front b) in
    if b.pending_bytes == 0 then ([], b) else (front b ∷ rest, b')

abbrev pub clear_emitted : WindowsDatapathBackend → WindowsDatapathBackend
clear_emitted b =
    if b.pending_bytes == 0
    then record b { pending_offset = 0; pending_segment_size = 0; pending_address = [] }
    else b

-- `emitPending`
unfoldable pub emit_pending : ℕ → WindowsDatapathBackend → List Datagram × WindowsDatapathBackend
unfolding emit_loop
emit_pending capacity b =
    let (ds, b') = emit_loop capacity b in
    if b.pending_bytes == 0 || b.pending_segment_size == 0 then ([], b) else (ds, clear_emitted b')

-- The loop of `receiveCoalesced` over the control messages: the last value that is in range.
unfoldable pub coalesced_segment_size : ℕ → ℕ → List Control → ℕ
coalesced_segment_size received segment_size [] = segment_size
coalesced_segment_size received segment_size (m ∷ ms) =
    coalesced_segment_size received
      (if m.is_coalesced_info && ltb 0 m.value && leb m.value received
        then m.value
        else segment_size)
      ms

-- What `receiveCoalesced` keeps of a message.
abbrev pub keep : CoalescedMessage → WindowsDatapathBackend → WindowsDatapathBackend
keep m b = record b {
  receive_buffer = m.bytes;
  pending_address = m.source_address;
  pending_offset = 0;
  pending_bytes = length m.bytes;
  pending_segment_size = coalesced_segment_size (length m.bytes) (length m.bytes) m.controls;
}

module _ {W : Type 0} (c : ErrorNumbers) (address_storage_size : ℕ) (calls : WindowsCalls W) where
  -- `initializeSocket` after it found WSARecvMsg, and the system knows coalescing.
  unfoldable pub enable_coalescing : ℕ → WindowsDatapathBackend → W → W × WindowsDatapathBackend
  enable_coalescing socket b w =
      let b' = record b { coalescing_supported = true } in
      let w' = calls.set_receive_buffer_size socket w in
      let (w'', is_set) = calls.set_max_coalesced_size socket (65535 - 8) w' in
      if b.receive_coalescing_disabled
      then (w', b')
      else (w'', if is_set then record b' { coalescing_enabled = true } else b')

  abbrev pub reset_socket : ℕ → WindowsDatapathBackend → WindowsDatapathBackend
  reset_socket socket b = record b {
    active_socket = socket;
    initialized = true;
    receive_msg = false;
    pending_bytes = 0;
    coalescing_supported = false;
    coalescing_enabled = false;
  }

  -- `initializeSocket`
  unfoldable pub initialize_socket : ℕ → WindowsDatapathBackend → W → W × WindowsDatapathBackend
  unfolding enable_coalescing
  initialize_socket socket b w =
      let fresh = reset_socket socket b in
      let (w', is_found) = calls.find_receive_msg socket w in
      let found = record fresh { receive_msg = true } in
      let (w'', is_known) = calls.get_max_coalesced_size socket w' in
      if b.initialized && b.active_socket == socket
      then (w, b)
      else if not is_found
      then (w', fresh)
      else if not is_known
      then (w'', found)
      else enable_coalescing socket found w''

  -- `receiveSingle` after its loop. A datagram of no bytes counts as none.
  unfoldable pub finish_single :
      WindowsDatapathBackend → Result ℕ Message → WindowsDatapathBackend × Result ℕ (List Datagram)
  finish_single b (err error) = (b, err error)
  finish_single b (ok m) =
      let written = record b { receive_buffer = m.bytes } in
      if is_empty m.bytes
      then (b, ok [])
      else if is_empty m.source_address || ltb address_storage_size (length m.source_address)
      then (written, err c.emsgsize)
      else (written, ok (record { bytes = m.bytes; source_address = m.source_address } ∷ []))

  -- `receiveCoalesced` after its loop.
  unfoldable pub finish_coalesced :
      ℕ
      → WindowsDatapathBackend
      → Result ℕ CoalescedMessage
      → WindowsDatapathBackend × Result ℕ (List Datagram)
  unfolding emit_pending coalesced_segment_size
  finish_coalesced capacity b (err error) = (b, err error)
  finish_coalesced capacity b (ok m) =
      let (ds, b') = emit_pending capacity (keep m b) in
      if is_empty m.bytes
      then (b, ok [])
      else if is_empty m.source_address || ltb address_storage_size (length m.source_address)
      then (record b { receive_buffer = m.bytes }, err c.emsgsize)
      else (b', ok ds)

  -- `receiveBatch` after `initializeSocket`, where nothing is pending.
  unfoldable pub receive_next :
      ℕ
      → ℕ
      → ℕ
      → WindowsDatapathBackend
      → W
      → W × Option (WindowsDatapathBackend × Result ℕ (List Datagram))
  unfolding finish_single finish_coalesced
  receive_next fuel socket capacity b w =
      let single =
        then_received (retry c (calls.recvfrom socket receive_buffer_size) fuel w)
          (λ w' r. (w', some (finish_single b r))) in
      let coalesced =
        then_received (retry c (calls.receive_msg socket receive_buffer_size) fuel w)
          (λ w' r. (w', some (finish_coalesced capacity b r))) in
      if not b.receive_msg || not b.coalescing_enabled then single else coalesced

  -- `receiveBatch` after `initializeSocket`.
  unfoldable pub receive_ready :
      ℕ
      → ℕ
      → ℕ
      → WindowsDatapathBackend
      → W
      → W × Option (WindowsDatapathBackend × Result ℕ (List Datagram))
  unfolding emit_pending receive_next
  receive_ready fuel socket capacity b w =
      let (ds, b') = emit_pending capacity b in
      let next = receive_next fuel socket capacity b' w in
      if is_empty ds then next else (w, some (b', ok ds))

  -- `receiveBatch`
  unfoldable pub receive_batch :
      ℕ
      → ℕ
      → ℕ
      → WindowsDatapathBackend
      → W
      → W × Option (WindowsDatapathBackend × Result ℕ (List Datagram))
  unfolding initialize_socket receive_ready
  receive_batch fuel socket capacity b w =
      let (w', ready) = initialize_socket socket b w in receive_ready fuel socket capacity ready w'

-- `sendAggregate`: Windows leaves every aggregate to libjuice.
unfoldable pub send_aggregate :
    {W : Type 0}
    → List ℕ
    → List ℕ
    → ℕ
    → WindowsDatapathBackend
    → W
    → W × WindowsDatapathBackend × AggregateResult
send_aggregate destination bytes segment_size b w = (w, b, not_handled)
