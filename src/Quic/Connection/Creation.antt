-- ===== src/Quic/Connection/Creation.antt =====
-- Connection::createClient, createServer and the constructor (native/quic/Connection.cpp), with the
-- initial values of the fields of native/quic/Connection.h. `pool` is the pool of the worker that
-- the connection is assigned to.
use ffl_p2p.Prelude.{ℕ, Bool, true, false, none, List, []}
use ffl_p2p.Quic.Library.{infinite_timestamp}
use ffl_p2p.Quic.Protocol.{ProtocolState}
use ffl_p2p.Quic.Connection.{Connection, AppState, Role, client, server, cleared}
use ffl_p2p.Datapath.Batch.{empty_receive_batch, empty_stream_batch}

abbrev pub new_protocol : Bool → ProtocolState
new_protocol is_server = record {
  server = is_server;
  conn = false;
  handshake_complete = false;
  handshake_confirmed = false;
  peer_finished = false;
  tx_stream_id = none;
  rx_stream_id = none;
  rx_offset = 0;
  tx_chunks = [];
  tx_next_offset = 0;
  tx_submitted_offset = 0;
  tx_acked_offset = 0;
  tx_fin_requested = false;
  tx_fin_submitted = false;
  tx_fin_acked = false;
  stream_closed = false;
  aggregate_packet_count = 0;
  aggregate_write_error = none;
}

abbrev pub new_app : ℕ → AppState
new_app pool = record {
  generation = 0;
  receive_batch = empty_stream_batch pool;
  error = none;
  handshake_complete = false;
  handshake_confirmed = false;
  peer_finished = false;
  submitted_write_offset = 0;
  acked_write_offset = 0;
  fin_submitted = false;
  fin_acked = false;
  stream_closed = false;
}

abbrev pub is_server_role : Role → Bool
is_server_role server = true
is_server_role client = false

unfoldable pub new_connection : Role → List ℕ → List ℕ → ℕ → Connection
new_connection role certificate private_key pool = record {
  role = role;
  certificate = certificate;
  private_key = private_key;
  protocol = new_protocol (is_server_role role);
  operations = [];
  completions = λ id. none;
  stopped = false;
  started = false;
  aggregate_packets = true;
  too_large_send_drops = 0;
  binding = record { agent = none; datagram_limit = 0 };
  receive_batch = empty_receive_batch pool;
  stream_receive_batch = empty_stream_batch pool;
  receive_operation_pending = false;
  stream_receive_operation_pending = false;
  peer_finished_pending = false;
  releasable_stream_receive_bytes = 0;
  send_operation_pending = false;
  pending_send = cleared;
  send_retry_expiry = infinite_timestamp;
  app = new_app pool;
  application_write_offset = 0;
  application_fin_requested = false;
}

unfoldable pub create_client : List ℕ → ℕ → Connection
unfolding new_connection
create_client certificate pool = new_connection client certificate [] pool

-- The server has the certificate and the private key of its credentials.
unfoldable pub create_server : List ℕ → List ℕ → ℕ → Connection
unfolding new_connection
create_server certificate private_key pool = new_connection server certificate private_key pool
