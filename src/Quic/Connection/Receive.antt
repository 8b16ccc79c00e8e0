-- ===== src/Quic/Connection/Receive.antt =====
-- The way of received stream bytes: receiveStreamDataCallback, appendReceivedStreamData and
-- processStreamReceive of the worker, takeReceivedStreamData of the application, and the
-- flow-control credit that goes back with processReleaseStreamReceiveCredit.
pub mod Flows
pub mod Delivery
pub mod Credit
pub mod Runs
pub mod Passing
mod Tests
use ffl_p2p.Prelude.{
  ℕ, ◌+◌, Bool, true, false, not, ◌&&◌, ◌||◌, Option, none, some, List, [], String, length, ◌==◌,
  if◌then◌else◌, is_empty, is_some, Result, ok, err,
}
use ffl_p2p.Quic.Library.{Error, message, Outside}
use ffl_p2p.Quic.Protocol.{ProtocolState, add64}
use ffl_p2p.Quic.Connection.{
  Connection, AppState, release_stream_recv_credit, flush_recv, queue_internal_operation,
  queue_stream_receive_flush, queue_send_flush,
}
use ffl_p2p.Datapath.Buffer.{Fault}
use ffl_p2p.Datapath.Batch.{
  StreamReceiveBatch, empty_stream_batch, append_bytes, append_batch, ReceiveBatch, append_receive,
}

unfoldable pub append_received_stream_data : Connection → List ℕ → Connection
append_received_stream_data c bytes =
    if is_empty bytes
    then c
    else queue_stream_receive_flush
        (record c { stream_receive_batch = (append_bytes c.stream_receive_batch bytes).0 })

unfoldable pub mark_peer_finished : Connection → Connection
mark_peer_finished c = queue_stream_receive_flush (record c { peer_finished_pending = true })

abbrev pub stream_of : Option ℕ → ℕ → ℕ
stream_of none stream = stream
stream_of (some r) stream = r

-- `receiveStreamDataCallback` where the stream and the offset are the expected ones.
unfoldable pub accept_stream_data : Connection → Bool → List ℕ → Connection
accept_stream_data c fin bytes =
    let d = append_received_stream_data c bytes in
    let e = record d {
      protocol = record (d.protocol) {
        rx_offset = add64 d.protocol.rx_offset (length bytes);
        peer_finished = fin || d.protocol.peer_finished;
      };
    } in
    if fin then mark_peer_finished e else e

-- `receiveStreamDataCallback`: whether it returns 0. The stream is fixed by the first call.
unfoldable pub receive_stream_data : Connection → Bool → ℕ → ℕ → List ℕ → Connection × Bool
receive_stream_data c fin stream offset bytes =
    let r = stream_of c.protocol.rx_stream_id stream in
    let d = record c { protocol = record (c.protocol) { rx_stream_id = some r } } in
    if not (r == stream) || not (offset == c.protocol.rx_offset)
    then (d, false)
    else (accept_stream_data d fin bytes, true)

-- `appReceiveBatch_.appendBatch(batch)`; both are over the worker's pool, so it does not throw.
unfoldable pub appended : StreamReceiveBatch → StreamReceiveBatch → StreamReceiveBatch
appended a b = elim (append_batch a b) [ ok (joined, emptied) ↦ joined | err e ↦ a ]

unfoldable pub process_stream_receive : Connection → Connection
process_stream_receive c =
    let batch = c.stream_receive_batch in
    let d = record c {
      stream_receive_batch = empty_stream_batch c.stream_receive_batch.pool;
      peer_finished_pending = false;
    } in
    if batch.byte_count == 0 && not c.peer_finished_pending then d else record d {
      app = record (d.app) {
        receive_batch = appended d.app.receive_batch batch;
        peer_finished = c.peer_finished_pending || d.app.peer_finished;
        generation = add64 d.app.generation 1;
      };
    }

-- `takeReceivedStreamData`: the batch that the application gets, and the connection.
unfoldable pub take_received_stream_data : Connection → StreamReceiveBatch × Connection
take_received_stream_data c =
    let batch = c.app.receive_batch in
    let d = record c {
      app = record (c.app) { receive_batch = empty_stream_batch c.app.receive_batch.pool };
    } in
    let e = record d {
      releasable_stream_receive_bytes = add64 d.releasable_stream_receive_bytes batch.byte_count;
    } in
    if batch.byte_count == 0 then (batch, d) else (
      batch,
      if c.releasable_stream_receive_bytes == 0
          then queue_internal_operation e release_stream_recv_credit
          else e,
    )

-- `processReleaseStreamReceiveCredit`: the stream's credit, then the connection's, then the packets.
module _ {W : Type 0} (out : Outside W) where
  abbrev pub extend_credit : Connection → ℕ → ℕ → W → W × Connection × Result Error (Unit {0})
  extend_credit c stream released w =
      let (w', extended) = out.extend_max_stream_offset stream released w in
      if extended
      then (out.extend_max_offset released w', queue_send_flush c, ok tt)
      else (w', c, err (message "QUIC stream receive credit could not be extended"))

  unfoldable pub release_to :
      Option ℕ → Connection → ℕ → W → W × Connection × Result Error (Unit {0})
  release_to none c released w = (w, c, ok tt)
  release_to (some stream) c released w =
      if released == 0 || not c.protocol.conn
      then (w, c, ok tt)
      else extend_credit c stream released w

  unfoldable pub process_release_credit : Connection → W → W × Connection × Result Error (Unit {0})
  process_release_credit c w =
      release_to c.protocol.rx_stream_id (record c { releasable_stream_receive_bytes = 0 })
        c.releasable_stream_receive_bytes w

-- What follows `receiveBatch_.append`; where it throws, the buffer that it linked stays.
abbrev pub received :
    Connection → ReceiveBatch × Result Fault (Unit {0}) → Connection × Result Fault (Unit {0})
received c (batch, err e) = (record c { receive_batch = batch }, err e)
received c (batch, ok u) =
    let d = record c { receive_batch = batch } in
    (
      if c.receive_operation_pending
          then d
          else queue_internal_operation (record d { receive_operation_pending = true }) flush_recv,
      ok tt,
    )

-- `queueReceive` of the datapath: the datagram, and the operation that will read it.
unfoldable pub queue_receive : Connection → Option (List ℕ) → Connection × Result Fault (Unit {0})
queue_receive c none = (c, ok tt)
queue_receive c (some bytes) =
    if is_empty bytes || c.stopped
    then (c, ok tt)
    else received c (append_receive c.receive_batch (some bytes))
