-- ===== src/Quic/Connection/Tests.antt =====
-- Runs of a client connection.
use ffl_p2p.Prelude.{ℕ, ◌≡◌, refl, true, false, Option, none, some, [], ◌∷◌, is_some, ok}
use ffl_p2p.Quic.Library.{message, wrote}
use ffl_p2p.Quic.Library.Sample.{quiet}
use ffl_p2p.Quic.Protocol.{release_transport}
use ffl_p2p.Quic.Connection.{
  Connection, flush_send, shutdown, notify_application, publish_application_state,
  drain_failed_operations, internal_operation, complete,
}
use ffl_p2p.Quic.Connection.Transport.{
  send_transport_buffer, flush_pending_transport_send, send_transport_once, after_send, held,
  retain_pending_transport_send, schedule_send_retry, note_sent, on_sent, after_retry, on_retried,
}
use ffl_p2p.Quic.Library.{Outside, again}
use ffl_p2p.Quic.Connection.Transport.Sends.{
  After, send_transport_buffer-After, flush_pending_transport_send-After,
}
use ffl_p2p.Quic.Connection.Flush.{
  AggregateWriter, Flushed, flush_packets, write_packets, unless_held, flush_aggregate,
  on_aggregate,
}
use ffl_p2p.Quic.Connection.Flush.Settles.{flush_packets-ends, flush_packets-Settled, Settled}
use ffl_p2p.Quic.Connection.Operations.{
  fail_operation, process_operations, process_queue, on_queue, on_processed, go_on, conclude,
  process_operation, process_type, process_send_flush, process_shutdown,
}
use ffl_p2p.Ice.Binding.{send, translate_send_result}
use ffl_p2p.Quic.Connection.Operations.Failure.{
  fail_operation-AllAnswered, process_operations_stops, Answered, AllAnswered,
}
use ffl_p2p.Quic.Connection.Application.{create_send_operation}
use ffl_p2p.Quic.Connection.Sample.{running_client, three_bytes}

abbrev nothing_to_write : AggregateWriter ℕ
nothing_to_write = λ callback limit p w. (w, p, wrote [], 0)

-- The same, with a socket that is full.
abbrev full : Outside ℕ
full = record quiet { agent_send = λ bytes w. (w, again) }

send_transport_buffer-After_example :
    let (w', d, result) = send_transport_buffer full running_client three_bytes 3 1 false 0 in
    After full three_bytes (send_transport_once full running_client three_bytes 3 false 0) w' d held
unfolding send_transport_buffer send_transport_once after_send on_sent send translate_send_result
    retain_pending_transport_send schedule_send_retry
send_transport_buffer-After_example =
    send_transport_buffer-After full running_client three_bytes 3 1 false 0 held refl

-- One byte went out, two wait.
abbrev blocked_client : Connection
blocked_client = record running_client {
  pending_send = record {
    bytes = three_bytes;
    offset = 1;
    segment_size = 3;
    packet_count = 1;
    logical_bytes = 3;
    aggregate = false;
  };
  send_retry_expiry = 1000000;
}

flush_pending_transport_send-After_example :
    let (w', d, result) = flush_pending_transport_send full blocked_client 0 in
    After full
      (2 ∷ 3 ∷ [])
      (send_transport_once full blocked_client (2 ∷ 3 ∷ []) 3 false 0)
      w'
      d
      held
unfolding flush_pending_transport_send send_transport_once after_retry on_retried send
    translate_send_result schedule_send_retry
flush_pending_transport_send-After_example =
    flush_pending_transport_send-After full blocked_client 0 held refl refl

flush_packets-ends_example :
    (f : Flushed ℕ) × (flush_packets quiet nothing_to_write running_client 0 ≡ some f)
flush_packets-ends_example = flush_packets-ends quiet nothing_to_write running_client 0

-- A flush in which the retry is blocked again.
abbrev flushed : Option (Flushed ℕ) → Flushed ℕ
flushed none = (0, blocked_client, ok true)
flushed (some f) = f

flush_packets-Settled_example :
    let (w, d, result) = flushed (flush_packets full nothing_to_write blocked_client 0) in
    Settled full false w d
unfolding flush_packets flush_pending_transport_send unless_held write_packets flush_aggregate
    on_aggregate send_transport_once after_retry on_retried send translate_send_result
    schedule_send_retry note_sent
flush_packets-Settled_example =
    let (w, d, result) = flushed (flush_packets full nothing_to_write blocked_client 0) in
    flush_packets-Settled full nothing_to_write blocked_client 0 w d false refl refl

fail_operation-AllAnswered_example :
    let d = fail_operation running_client (some 4) (message "stop") in
    (d.stopped ≡ true)
    × (d.protocol.conn ≡ false)
    × (d.operations ≡ [])
    × (is_some d.app.error ≡ true)
    × Answered d (some 4)
    × AllAnswered d running_client.operations
fail_operation-AllAnswered_example =
    fail_operation-AllAnswered running_client (some 4) (message "stop")

abbrev closing_client : Connection
closing_client = record running_client {
  operations =
      internal_operation flush_send
      ∷ internal_operation shutdown
      ∷ internal_operation flush_send
      ∷ [];
}

abbrev connection_of : Option (ℕ × Connection) → Connection
connection_of none = closing_client
connection_of (some (w, c)) = c

abbrev closed_client : Connection
closed_client = connection_of (process_operations quiet nothing_to_write 64 closing_client 0)

process_operations_stops_example : closed_client.operations ≡ []
unfolding process_operations process_queue on_queue on_processed go_on conclude process_operation
    process_type process_send_flush process_shutdown flush_packets flush_pending_transport_send
    unless_held write_packets flush_aggregate on_aggregate complete release_transport
    notify_application publish_application_state drain_failed_operations
process_operations_stops_example =
    process_operations_stops quiet nothing_to_write 64 closing_client 0 0 closed_client refl refl
      refl

abbrev written_client : Connection
written_client = (create_send_operation running_client (some three_bytes) false).0
