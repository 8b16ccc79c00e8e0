-- ===== src/Datapath/Sockets/Posix.antt =====
-- POSIXDatapathBackend of native/datapath/DatapathPOSIX.cpp on Linux, and DatagramBatchReceiver of
-- native/platform/DatagramBatch.cpp. A message's bytes are those of the sizes that the system reports.
-- The control header of a send has room, so CMSG_FIRSTHDR finds it.
pub mod Receive
pub mod Batching
pub mod Fallback
pub mod Send
use ffl_p2p.Prelude.{
  ℕ, zero, suc, ◌+◌, ◌-◌, ◌*◌, ◌/◌, min, Bool, true, false, not, ◌&&◌, ◌||◌, Option, none, some,
  List, [], ◌∷◌, length, ltb, leb, ◌==◌, if◌then◌else◌, is_empty, Result, ok, err,
}
use ffl_p2p.Datapath.Sockets.Batch.{Message, Target, ReceiveCalls, max_batch_size, receive}
use ffl_p2p.Datapath.Sockets.{Datagram, ErrorNumbers, is_ignored_udp_error, retry, then_received}

abbrev pub receive_datagram_size : ℕ
receive_datagram_size = 4096

abbrev pub max_gso_segments : ℕ
max_gso_segments = 64

abbrev probe_segment_size : ℕ
probe_segment_size = 1200

abbrev probe_segment_count : ℕ
probe_segment_count = 2

abbrev uint16_max : ℕ
uint16_max = 65535

pub record PosixDatapathBackend : Type 0 where
  pub send_segmentation_disabled : Bool
  pub receive_batching_disabled : Bool
  pub send_segmentation_enabled : Bool
  pub receive_batching_enabled : Bool

-- What the calls of `probeSendSegmentation` give; `sendmsg` gives a number of bytes, or fails.
pub record Probe : Type 0 where
  pub send_socket : Bool
  pub receive_socket : Bool
  pub bind : Bool
  pub getsockname : Bool
  pub sendmsg : Option ℕ

abbrev sent_all : Option ℕ → ℕ → Bool
sent_all none n = false
sent_all (some sent) n = sent == n

-- `probeSendSegmentation`
unfoldable pub probe_send_segmentation : Bool → Probe → Bool
probe_send_segmentation is_linux p =
    if not is_linux
    then false
    else if not p.send_socket || not p.receive_socket
    then false
    else if not p.bind
    then false
    else if not p.getsockname
    then false
    else sent_all p.sendmsg (probe_segment_size * probe_segment_count)

-- `initializeCapabilities`, over `batchReceiver_.isSupported()`.
unfoldable pub initialize_capabilities :
    Bool → Probe → Bool → PosixDatapathBackend → PosixDatapathBackend
unfolding probe_send_segmentation
initialize_capabilities is_linux p is_supported b =
    let segmentation_supported = is_linux && probe_send_segmentation is_linux p in
    let receive_batching_supported = is_linux && is_supported in
    record b {
      send_segmentation_enabled = segmentation_supported && not b.send_segmentation_disabled;
      receive_batching_enabled = receive_batching_supported && not b.receive_batching_disabled;
    }

-- The results of `sendAggregate`: JUICE_UDP_SEND_AGGREGATE_NOT_HANDLED, _FAILED with its error, and
-- _HANDLED with the size sent.
pub data AggregateResult : Type 0 where
  not_handled : AggregateResult
  failed : ℕ → AggregateResult
  handled : ℕ → AggregateResult

-- `isSegmentationCapabilityError`
unfoldable pub is_segmentation_capability_error : ErrorNumbers → ℕ → Bool
is_segmentation_capability_error c error =
    error == c.einval || error == c.enoprotoopt || error == c.eopnotsupp || error == c.enosys

unfoldable pub disable_send_segmentation : PosixDatapathBackend → PosixDatapathBackend
disable_send_segmentation b = record b { send_segmentation_enabled = false }

unfoldable pub disable_receive_batching : PosixDatapathBackend → PosixDatapathBackend
disable_receive_batching b = record b { receive_batching_enabled = false }

-- `sendAggregate` after `sendmsg`.
unfoldable pub finish_send :
    ErrorNumbers → ℕ → PosixDatapathBackend → Result ℕ ℕ → PosixDatapathBackend × AggregateResult
unfolding is_segmentation_capability_error disable_send_segmentation
finish_send c size b (err error) =
    if is_segmentation_capability_error c error
    then (disable_send_segmentation b, not_handled)
    else (b, failed error)
finish_send c size b (ok sent) = if not (sent == size) then (b, failed c.eio) else (b, handled size)

-- `sendAggregate`; `sendmsg` has the segment size in its control header.
unfoldable pub send_aggregate :
    {W : Type 0} (c : ErrorNumbers) (sockaddr_storage_size : ℕ)
    (sendmsg : List ℕ → List ℕ → ℕ → W → W × Result ℕ ℕ)
    → List ℕ
    → List ℕ
    → ℕ
    → PosixDatapathBackend
    → W
    → W × PosixDatapathBackend × AggregateResult
unfolding finish_send
send_aggregate c sockaddr_storage_size sendmsg destination bytes segment_size b w =
    if not b.send_segmentation_enabled
      || leb (length bytes) segment_size
      || ltb uint16_max segment_size
    then (w, b, not_handled)
    else if ltb max_gso_segments ((length bytes + segment_size - 1) / segment_size)
        || ltb sockaddr_storage_size (length destination)
    then (w, b, not_handled)
    else let (w', r) = sendmsg destination bytes segment_size w in
      let (b', result) = finish_send c (length bytes) b r in (w', b', result)

-- The constants of libjuice, JUICE_UDP_RECV_BATCH_CAPACITY and JUICE_UDP_RECV_ADDRESS_STORAGE_SIZE.
pub record JuiceLimits : Type 0 where
  pub batch_capacity : ℕ
  pub address_storage_size : ℕ

-- The system: `recvmmsg` and `sys_recvmmsg`, and `recvfrom` into a buffer of the size given.
pub record SocketCalls (W : Type 0) : Type 0 where
  pub batch : ReceiveCalls W
  pub recvfrom : ℕ → W → W × Result ℕ Message

-- The test of the loop of `receiveMessages`.
abbrev pub is_refused : JuiceLimits → Message → Bool
is_refused l m =
    m.truncated
    || ltb receive_datagram_size (length m.bytes)
    || is_empty m.source_address
    || ltb l.address_storage_size (length m.source_address)

abbrev pub add_datagram : Datagram → Result ℕ (List Datagram) → Result ℕ (List Datagram)
add_datagram d (ok ds) = ok (d ∷ ds)
add_datagram d (err error) = err error

-- The loop of `receiveMessages` over what was received: MSG_TRUNC or a wrong size refuses all of it.
unfoldable pub to_datagrams : ErrorNumbers → JuiceLimits → List Message → Result ℕ (List Datagram)
to_datagrams c l [] = ok []
to_datagrams c l (m ∷ ms) =
    if m.truncated
      || ltb receive_datagram_size (length m.bytes)
      || is_empty m.source_address
      || ltb l.address_storage_size (length m.source_address)
    then err c.emsgsize
    else add_datagram (record { bytes = m.bytes; source_address = m.source_address })
        (to_datagrams c l ms)

-- `receiveSingle` after its loop. A datagram of no bytes counts as none.
unfoldable pub finish_single :
    ErrorNumbers → JuiceLimits → Result ℕ Message → Result ℕ (List Datagram)
finish_single c l (err error) = err error
finish_single c l (ok m) =
    if is_empty m.bytes
    then ok []
    else if is_empty m.source_address || ltb l.address_storage_size (length m.source_address)
    then err c.emsgsize
    else ok (record { bytes = m.bytes; source_address = m.source_address } ∷ [])

module _ {W : Type 0} (c : ErrorNumbers) (l : JuiceLimits) (calls : SocketCalls W) (target : Target)
    (is_linux : Bool) where
  -- `receiveSingle`
  unfoldable pub receive_single : ℕ → W → W × Option (Result ℕ (List Datagram))
  unfolding finish_single
  receive_single fuel w =
      then_received (retry c (calls.recvfrom receive_datagram_size) fuel w)
        (λ w' r. (w', some (finish_single c l r)))

  abbrev pub with_backend :
      PosixDatapathBackend
      → W × Option (Result ℕ (List Datagram))
      → W × Option (PosixDatapathBackend × Result ℕ (List Datagram))
  with_backend b (w, none) = (w, none)
  with_backend b (w, some r) = (w, some (b, r))

  -- `receiveMessages` after its loop.
  unfoldable pub finish_messages :
      ℕ
      → PosixDatapathBackend
      → W
      → Result ℕ (List Message)
      → W × Option (PosixDatapathBackend × Result ℕ (List Datagram))
  unfolding to_datagrams disable_receive_batching receive_single
  finish_messages fuel b w (ok ms) = (w, some (b, to_datagrams c l ms))
  finish_messages fuel b w (err error) =
      let single = with_backend (disable_receive_batching b) (receive_single fuel w) in
      if error == c.eagain || error == c.ewouldblock
      then (w, some (b, ok []))
      else if error == c.enosys || error == c.eopnotsupp
      then single
      else (w, some (b, err error))

  -- `receiveMessages`
  unfoldable pub receive_messages :
      ℕ
      → ℕ
      → PosixDatapathBackend
      → W
      → W × Option (PosixDatapathBackend × Result ℕ (List Datagram))
  unfolding finish_messages
  receive_messages fuel capacity b w =
      then_received
        (retry c
          (receive c calls.batch target is_linux
            (min capacity (min l.batch_capacity max_batch_size)))
          fuel w)
        (finish_messages fuel b)

  -- `receiveBatch`
  unfoldable pub receive_batch :
      ℕ
      → ℕ
      → PosixDatapathBackend
      → W
      → W × Option (PosixDatapathBackend × Result ℕ (List Datagram))
  unfolding receive_messages
  receive_batch fuel capacity b w =
      let batch = receive_messages fuel capacity b w in
      let single = with_backend b (receive_single fuel w) in
      if b.receive_batching_enabled then batch else single
