-- ===== src/Quic/Connection/Receive/Tests.antt =====
-- Runs of the way of received bytes.
use ffl_p2p.Prelude.{◌+◌, ◌≤◌, ◌≡◌, refl, ap, ◌∙◌, some, false, List, [], ◌∷◌, ◌++◌, length, arith}
use ffl_p2p.Quic.Library.Sample.{quiet}
use ffl_p2p.Quic.Connection.{
  Connection, queue_stream_receive_flush, queue_internal_operation, queue_operation, complete,
}
use ffl_p2p.Quic.Connection.Receive.{
  receive_stream_data, process_stream_receive, take_received_stream_data, process_release_credit,
  accept_stream_data, append_received_stream_data,
}
use ffl_p2p.Quic.Protocol.{ProtocolState}
use ffl_p2p.Quic.Connection.Receive.Flows.{Delivers}
use ffl_p2p.Quic.Connection.Receive.Credit.{metered, unmetered}
use ffl_p2p.Quic.Library.{Event, stream_data, acked_stream_data}
use ffl_p2p.Quic.Connection.Receive.Runs.{
  silent, Shown, ReceiveStep, ReceiveRun, ReceiveRun-taken, ReceiveRun-bounded, arrived_if,
  append_shown, credited,
}
use ffl_p2p.Datapath.Batch.{empty_stream_batch}
use ffl_p2p.Datapath.Batch.Stream.{contents}
use ffl_p2p.Quic.Connection.Sample.{client_state, running_client, three_bytes}

-- The same client before anything has come.
abbrev quiet_client : Connection
quiet_client = record running_client {
  protocol = record client_state { rx_offset = 0 };
  stream_receive_batch = empty_stream_batch 0;
  stream_receive_operation_pending = false;
  releasable_stream_receive_bytes = 0;
  app = record (running_client.app) { receive_batch = empty_stream_batch 0 };
}

quiet_client-Delivers : Delivers [] [] 0 quiet_client
quiet_client-Delivers = record {
  order = refl;
  offset = refl;
  credit = refl;
  small = omega arith;
  app_valid = record { buffers = tt; bytes = refl; counted = refl };
  worker_valid = record { buffers = tt; bytes = refl; counted = refl };
  pools = refl;
  noticed = λ e. refl;
}

abbrev reached : Connection
reached = (receive_stream_data quiet_client false 0 0 three_bytes).0

abbrev passed_on : Connection
passed_on = process_stream_receive (record reached { stream_receive_operation_pending = false })

abbrev read_out : Connection
read_out = (take_received_stream_data passed_on).1

-- Three bytes come, are handed on and taken, and their credit goes back.
abbrev three_shown : Shown
three_shown =
    append_shown
      (append_shown
        (append_shown
          (append_shown silent (record silent {
            arrived =
                arrived_if (receive_stream_data quiet_client false 0 0 three_bytes).1 three_bytes;
          }))
          silent)
        (record silent { taken = contents (take_received_stream_data passed_on).0 }))
      (credited read_out.protocol.conn read_out.releasable_stream_receive_bytes
        (process_release_credit (metered quiet 0) read_out (0, unmetered)))

abbrev given_back : Connection
given_back = (process_release_credit (metered quiet 0) read_out (0, unmetered)).1

take_received_stream_data-protocol :
    (c : Connection) → (take_received_stream_data c).1.protocol ≡ c.protocol
unfolding take_received_stream_data queue_internal_operation queue_operation complete
take_received_stream_data-protocol c = ground arith

process_stream_receive-protocol :
    (c : Connection) → (process_stream_receive c).protocol ≡ c.protocol
unfolding process_stream_receive
process_stream_receive-protocol c = ground arith

known : read_out.protocol.rx_stream_id ≡ some 0
unfolding receive_stream_data accept_stream_data append_received_stream_data
    queue_stream_receive_flush queue_internal_operation queue_operation
known =
    ap (λ (p : ProtocolState). p.rx_stream_id)
      (take_received_stream_data-protocol passed_on
        ∙ process_stream_receive-protocol
            (record reached { stream_receive_operation_pending = false }))

three_run : ReceiveRun quiet quiet_client three_shown given_back
three_run =
    ReceiveRun.next
      (ReceiveRun.next
        (ReceiveRun.next
          (ReceiveRun.next ReceiveRun.here
            (ReceiveStep.arrives false 0 0 three_bytes (omega arith)))
          ReceiveStep.hands_on)
        ReceiveStep.takes)
      (ReceiveStep.credits 0 0 known)

ReceiveRun-taken_example :
    let d = given_back in
    (three_shown.taken ++ (contents d.app.receive_batch ++ contents d.stream_receive_batch)
      ≡ three_shown.arrived)
    × (three_shown.granted + three_shown.lost + d.releasable_stream_receive_bytes
        ≡ length three_shown.taken)
    × (three_shown.connection_granted ≡ three_shown.granted)
ReceiveRun-taken_example =
    ReceiveRun-taken quiet quiet_client three_shown given_back quiet_client-Delivers three_run

three_arrived : length three_shown.arrived ≤ 3 + three_shown.granted
unfolding receive_stream_data
three_arrived = omega arith

ReceiveRun-bounded_example :
    length (contents given_back.app.receive_batch)
      + length (contents given_back.stream_receive_batch)
    ≤ 3
ReceiveRun-bounded_example =
    ReceiveRun-bounded quiet quiet_client three_shown given_back 3 quiet_client-Delivers three_run
      three_arrived

-- A packet with the first bytes, an acknowledgement that does not follow, and bytes behind it.
abbrev packet_events : List Event
packet_events =
    stream_data false 0 0 three_bytes
    ∷ acked_stream_data 0 7 1
    ∷ stream_data false 0 3 three_bytes
    ∷ []
