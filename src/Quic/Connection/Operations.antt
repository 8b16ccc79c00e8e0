-- ===== src/Quic/Connection/Operations.antt =====
-- The worker's side of a connection (native/quic/Connection.cpp): processOperation with the handlers
-- of every operation, processOperations, failFromRuntime, queueTimerExpired and getNextExpiry.
pub mod Failure
pub mod Ends
use ffl_p2p.Prelude.{
  ℕ, zero, suc, ◌+◌, min, Bool, true, false, not, ◌&&◌, ◌||◌, Option, none, some, List, [], ◌∷◌,
  leb, ◌==◌, if◌then◌else◌, is_some, is_empty, Result, ok, err,
}
use ffl_p2p.Quic.Library.{
  Code, stream_id_blocked, idle_close, Error, message, library, infinite_timestamp, Outside,
}
use ffl_p2p.Quic.Protocol.{ProtocolState, enqueue, release_transport}
use ffl_p2p.Quic.Connection.{
  Connection, Role, client, server, Operation, OperationType, api_start, api_send, flush_recv,
  flush_stream_recv, flush_send, timer_expired, shutdown, release_stream_recv_credit, complete,
  queue_internal_operation, queue_send_flush, notify_application, set_error,
  drain_failed_operations, publish_application_state,
}
use ffl_p2p.Quic.Connection.Receive.{process_stream_receive, process_release_credit}
use ffl_p2p.Quic.Connection.Callbacks.{Stepped, and_then, initialize_client, feed_packet, is_client}
use ffl_p2p.Quic.Connection.Transport.{clear_send_retry}
use ffl_p2p.Quic.Connection.Flush.{AggregateWriter, Flushed, flush_packets}
use ffl_p2p.Datapath.Batch.{ReceiveBatch, empty_receive_batch, for_each_packet}

abbrev pub stop : Connection → Connection
stop c = record c { protocol = release_transport c.protocol; stopped = true }

-- What follows an exception: the operation fails, the connection is stopped and its queue emptied.
unfoldable pub fail_operation : Connection → Option ℕ → Error → Connection
fail_operation c completion e =
    let d = stop (set_error (complete c completion (some e)) e) in
    drain_failed_operations d.operations d e

unfoldable pub fail_from_runtime : Connection → Error → Connection
fail_from_runtime c e = let d = stop (set_error c e) in drain_failed_operations d.operations d e

unfoldable pub queue_timer_expired : Connection → Connection
queue_timer_expired c = if c.stopped then c else queue_internal_operation c timer_expired

module _ {W : Type 0} (out : Outside W) (write_aggregate : AggregateWriter W) where
  unfoldable pub get_next_expiry : Connection → W → ℕ
  get_next_expiry c w =
      if c.stopped
      then infinite_timestamp
      else min (if c.protocol.conn then out.get_expiry w else infinite_timestamp)
          c.send_retry_expiry

  abbrev succeed : Connection → W → Stepped W
  succeed c w = (w, c, ok tt)

  unfoldable pub process_start : Connection → W → Stepped W
  process_start c w =
      let d = record c { started = true } in
      and_then
        (if c.started
          then (w, d, err (message "QUIC runtime was started more than once"))
          else if is_client out c.role
          then and_then (initialize_client out d w) (λ e v. succeed (queue_send_flush e) v)
          else succeed d w)
        (λ e v. succeed (notify_application e) v)

  abbrev use_stream : Connection → ℕ → Connection
  use_stream c stream = record c { protocol = record (c.protocol) { tx_stream_id = some stream } }

  abbrev open_error : Code → Error
  open_error stream_id_blocked = message "QUIC bidirectional stream is not available yet"
  open_error code = library "ngtcp2_conn_open_bidi_stream" code

  abbrev opened : Connection → W × Result Code ℕ → Stepped W
  opened c (w, ok stream) = (w, use_stream c stream, ok tt)
  opened c (w, err code) = (w, c, err (open_error code))

  abbrev reply_stream : Connection → W → Option ℕ → Stepped W
  reply_stream c w none = (w, c, err (message "server has not received a client stream yet"))
  reply_stream c w (some stream) = (w, use_stream c stream, ok tt)

  -- The server answers on the client's stream; the client opens one.
  unfoldable pub ensure_stream : Connection → W → Stepped W
  ensure_stream c w =
      if is_some c.protocol.tx_stream_id
      then succeed c w
      else if c.protocol.server
      then reply_stream c w c.protocol.rx_stream_id
      else opened c (out.open_stream w)

  unfoldable pub process_send : List ℕ → Bool → Connection → W → Stepped W
  process_send bytes fin c w =
      if not c.protocol.conn
      then (w, c, err (message "QUIC connection is not initialized"))
      else if c.protocol.tx_fin_requested
      then (w, c, err (message "QUIC stream send side is already finishing"))
      else and_then (ensure_stream c w) (λ d v.
        succeed
          (publish_application_state
            (queue_send_flush (record d { protocol = enqueue d.protocol bytes fin })))
          v)

  abbrev feed_next : List ℕ → Stepped W → Stepped W
  feed_next packet s = and_then s (λ c w. feed_packet out packet c w)

  -- Packets that come in meanwhile are in the connection's batch, with or without their operation.
  unfoldable pub queue_next_receive : Connection → Connection
  queue_next_receive c =
      if not (c.receive_batch.packet_count == 0) && not c.receive_operation_pending
      then queue_internal_operation (record c { receive_operation_pending = true }) flush_recv
      else c

  unfoldable pub process_receive : Connection → W → Stepped W
  process_receive c w =
      let batch = c.receive_batch in
      let d = record c {
        receive_batch = empty_receive_batch batch.pool;
        receive_operation_pending = false;
      } in
      and_then
        (if batch.packet_count == 0
          then succeed d w
          else and_then (for_each_packet feed_next batch (succeed d w))
              (λ e v. succeed (queue_send_flush e) v))
        (λ e v. succeed (queue_next_receive e) v)

  abbrev pub requeue : Option (Flushed W) → Option (Stepped W)
  requeue none = none
  requeue (some (w, c, ok true)) = some (succeed (queue_send_flush c) w)
  requeue (some (w, c, ok false)) = some (succeed c w)
  requeue (some (w, c, err e)) = some (w, c, err e)

  -- `none` would be a flush that does not end.
  unfoldable pub process_send_flush : Connection → W → Option (Stepped W)
  process_send_flush c w =
      if not c.protocol.conn
      then some (succeed c w)
      else requeue (flush_packets out write_aggregate c w)

  abbrev expiry_error : Code → Error
  expiry_error idle_close = message "QUIC idle timeout"
  expiry_error code = library "ngtcp2_conn_handle_expiry" code

  abbrev handled : Connection → W × Option Code → Stepped W
  handled c (w, none) = succeed (queue_send_flush c) w
  handled c (w, some code) = (w, c, err (expiry_error code))

  unfoldable pub process_timer : Connection → W → Stepped W
  process_timer c w =
      let (v, now) = out.now w in
      let due = leb c.send_retry_expiry now in
      let d = if due then clear_send_retry c else c in
      if d.protocol.conn && leb (out.get_expiry v) now
      then handled d (out.handle_expiry now v)
      else succeed (if due then queue_send_flush d else d) v

  unfoldable pub process_shutdown : Connection → Connection
  process_shutdown c = notify_application (stop (publish_application_state c))

  unfoldable pub process_type : OperationType → Operation → Connection → W → Option (Stepped W)
  process_type api_start o c w = some (process_start c w)
  process_type api_send o c w = some (process_send o.bytes o.fin c w)
  process_type flush_recv o c w = some (process_receive c w)
  process_type flush_stream_recv o c w =
      some
        (succeed (process_stream_receive (record c { stream_receive_operation_pending = false })) w)
  process_type flush_send o c w = process_send_flush (record c { send_operation_pending = false }) w
  process_type timer_expired o c w = some (process_timer c w)
  process_type shutdown o c w = some (succeed (process_shutdown c) w)
  process_type release_stream_recv_credit o c w = some (process_release_credit out c w)

  unfoldable pub process_operation : Operation → Connection → W → Option (Stepped W)
  process_operation o c w = process_type o.type o c w

  -- The operation's result: whether the loop goes on, and the connection.
  unfoldable pub conclude : Operation → Stepped W → Bool × W × Connection
  conclude o (w, c, err e) = (false, w, fail_operation c o.completion e)
  conclude o (w, c, ok u) =
      let d = complete c o.completion none in
      if d.stopped
      then (false, w, drain_failed_operations d.operations d (message "QUIC runtime is stopped"))
      else (true, w, d)

  unfoldable pub go_on :
      Bool × W × Connection → (Connection → W → Option (W × Connection)) → Option (W × Connection)
  go_on (true, w, c) next = next c w
  go_on (false, w, c) next = some (w, c)

  unfoldable pub on_processed :
      Operation
      → Option (Stepped W)
      → (Connection → W → Option (W × Connection))
      → Option (W × Connection)
  on_processed o none next = none
  on_processed o (some s) next = go_on (conclude o s) next

  -- `operationQueue_.pop`, and what is done with the operation.
  unfoldable pub on_queue :
      List Operation
      → Connection
      → W
      → (Connection → W → Option (W × Connection))
      → Option (W × Connection)
  on_queue [] c w next = some (w, c)
  on_queue (o ∷ os) c w next =
      on_processed o (process_operation o (record c { operations = os }) w) next

  -- `budget` is what is left of `maxOperations`.
  unfoldable pub process_queue : ℕ → Connection → W → Option (W × Connection)
  process_queue zero c w = some (w, c)
  process_queue (suc budget) c w = on_queue c.operations c w (λ d v. process_queue budget d v)

  abbrev pub published : Option (W × Connection) → Option (W × Connection)
  published none = none
  published (some (w, c)) = some (w, publish_application_state c)

  unfoldable pub process_operations : ℕ → Connection → W → Option (W × Connection)
  process_operations max_operations c w = published (process_queue max_operations c w)
