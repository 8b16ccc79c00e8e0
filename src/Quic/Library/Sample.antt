-- ===== src/Quic/Library/Sample.antt =====
-- An outside world for the tests: a clock that counts its readings, an agent that takes every
-- datagram, and an ngtcp2 that writes nothing, has no timer and grants all.
use ffl_p2p.Prelude.{ℕ, ◌+◌, true, none, [], length, ok}
use ffl_p2p.Quic.Library.{Outside, infinite_timestamp, success, wrote}

abbrev pub quiet : Outside ℕ
quiet = record {
  now = λ w. (w + 1, w);
  agent_send = λ bytes w. (w, success);
  agent_send_aggregate = λ bytes segment w. (w, success, length bytes);
  set_sink = λ handle w. (w, true);
  clear_sink = λ handle w. w;
  update_tx_time = λ now w. w;
  write_stream = λ r w. (w, record { written = wrote []; accepted = none });
  write_pkt = λ w. (w, wrote []);
  get_expiry = λ w. infinite_timestamp;
  handle_expiry = λ now w. (w, none);
  read_pkt = λ packet w. (w, [], none);
  open_stream = λ w. (w, ok 0);
  extend_max_stream_offset = λ stream size w. (w, true);
  extend_max_offset = λ size w. w;
  initialize_client = λ certificate w. (w, none);
  initialize_server = λ certificate key original peer w. (w, none);
  decode_version_cid = λ packet. none;
}
