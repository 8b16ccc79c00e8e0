-- ===== src/Quic/Connection/Sample.antt =====
-- A client connection that runs: it has received three bytes, of which the application has one, one
-- waits with the application's side and one with the worker.
use ffl_p2p.Prelude.{ℕ, refl, true, false, none, some, List, [], ◌∷◌, arith}
use ffl_p2p.Quic.Library.{infinite_timestamp}
use ffl_p2p.Quic.Protocol.{ProtocolState}
use ffl_p2p.Quic.Connection.{Connection, client, cleared, flush_send, internal_operation}
use ffl_p2p.Quic.Connection.Receive.Flows.{Delivers}
use ffl_p2p.Datapath.Batch.{empty_receive_batch, StreamReceiveBatch}
use ffl_p2p.Datapath.Batch.Stream
use ffl_p2p.Datapath.Batch.Stream.{contents}

abbrev pub batch_of : ℕ → StreamReceiveBatch
batch_of x = record {
  pool = 0;
  buffers = record { payload = x ∷ [] } ∷ [];
  byte_count = 1;
  buffer_count = 1;
}

abbrev pub client_state : ProtocolState
client_state = record {
  server = false;
  conn = true;
  handshake_complete = true;
  handshake_confirmed = true;
  peer_finished = false;
  tx_stream_id = some 0;
  rx_stream_id = some 0;
  rx_offset = 3;
  tx_chunks = [];
  tx_next_offset = 0;
  tx_submitted_offset = 0;
  tx_acked_offset = 0;
  tx_fin_requested = false;
  tx_fin_submitted = false;
  tx_fin_acked = false;
  stream_closed = false;
  aggregate_packet_count = 0;
  aggregate_write_error = none;
}

abbrev pub running_client : Connection
running_client = record {
  role = client;
  certificate = 1 ∷ [];
  private_key = [];
  protocol = client_state;
  operations = internal_operation flush_send ∷ [];
  completions = λ id. none;
  stopped = false;
  started = true;
  aggregate_packets = true;
  too_large_send_drops = 0;
  binding = record { agent = some 7; datagram_limit = 0 };
  receive_batch = empty_receive_batch 0;
  stream_receive_batch = batch_of 3;
  receive_operation_pending = false;
  stream_receive_operation_pending = true;
  peer_finished_pending = false;
  releasable_stream_receive_bytes = 1;
  send_operation_pending = false;
  pending_send = cleared;
  send_retry_expiry = infinite_timestamp;
  app = record {
    generation = 0;
    receive_batch = batch_of 2;
    error = none;
    handshake_complete = true;
    handshake_confirmed = true;
    peer_finished = false;
    submitted_write_offset = 0;
    acked_write_offset = 0;
    fin_submitted = false;
    fin_acked = false;
    stream_closed = false;
  };
  application_write_offset = 0;
  application_fin_requested = false;
}

abbrev pub three_bytes : List ℕ
three_bytes = 1 ∷ 2 ∷ 3 ∷ []

pub batch_of-IsValid : (x : ℕ) → Stream.IsValid (batch_of x)
batch_of-IsValid x = record { buffers = (omega arith, tt); bytes = refl; counted = refl }

pub running_client-Delivers : Delivers three_bytes (1 ∷ []) 0 running_client
running_client-Delivers = record {
  order = refl;
  offset = refl;
  credit = refl;
  small = omega arith;
  app_valid = batch_of-IsValid 2;
  worker_valid = batch_of-IsValid 3;
  pools = refl;
  noticed = λ e. ground arith;
}
