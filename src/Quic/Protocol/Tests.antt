-- ===== src/Quic/Protocol/Tests.antt =====
-- Runs of the send side of Connection::ProtocolState: three bytes, of which one is submitted.
use ffl_p2p.Prelude.{
  ℕ, ◌≡◌, refl, true, false, none, some, List, [], ◌∷◌, ◌++◌, length, take, arith,
}
use ffl_p2p.Quic.Protocol.{ProtocolState, offer, enqueue, next_transmit_chunk}
use ffl_p2p.Quic.Library.{wrote}
use ffl_p2p.Quic.Protocol.{finish_stream_write}
use ffl_p2p.Quic.Protocol.Pipe.{Action, Pipe, QueueStep, Implements}
use ffl_p2p.Quic.Protocol.Pipe.Runs.{
  PipeRun, QueueRun, QueueRun-Implements, QueueRun-sent, written_bytes, sent_bytes,
}
use ffl_p2p.Quic.Protocol.Invariant.{IsValid}

abbrev three : List ℕ
three = 1 ∷ 2 ∷ 3 ∷ []

abbrev sending : ProtocolState
sending = record {
  server = false;
  conn = true;
  handshake_complete = true;
  handshake_confirmed = true;
  peer_finished = false;
  tx_stream_id = some 0;
  rx_stream_id = some 0;
  rx_offset = 0;
  tx_chunks = record { offset = 0; bytes = three; submitted = 1 } ∷ [];
  tx_next_offset = 3;
  tx_submitted_offset = 1;
  tx_acked_offset = 0;
  tx_fin_requested = false;
  tx_fin_submitted = false;
  tx_fin_acked = false;
  stream_closed = false;
  aggregate_packet_count = 0;
  aggregate_write_error = none;
}

sending-IsValid : IsValid three 0 sending
sending-IsValid = record {
  spans = (refl, omega arith, refl);
  submits = (refl, tt);
  content = refl;
  total = refl;
  retained = omega arith;
  acked = omega arith;
  submitted = omega arith;
  small = omega arith;
  finished = λ h. ground arith;
  requested = λ h. ground arith;
}

abbrev untouched : ProtocolState
untouched = record sending { tx_chunks = []; tx_next_offset = 0; tx_submitted_offset = 0 }

abbrev dry : Pipe
dry = record { written = []; sent = []; acked = 0 }

untouched-Implements : Implements dry untouched
untouched-Implements = record {
  base = 0;
  valid = record {
    spans = refl;
    submits = tt;
    content = refl;
    total = refl;
    retained = omega arith;
    acked = omega arith;
    submitted = omega arith;
    small = omega arith;
    finished = λ h. refl;
    requested = λ h. ground arith;
  };
  rest = [];
  split = refl;
  submitted = refl;
  acked = refl;
}

-- Three bytes are queued, and ngtcp2 takes two of them.
abbrev queued : ProtocolState
queued = enqueue untouched three false

abbrev taken_two : ProtocolState
taken_two =
    (finish_stream_write false queued (record { written = wrote (9 ∷ []); accepted = some 2 })).0

abbrev actions : List Action
actions = Action.writes three ∷ Action.sends (take 2 (offer false queued 0).bytes) ∷ []

two_taken : QueueRun untouched actions taken_two
unfolding enqueue offer next_transmit_chunk
two_taken =
    QueueRun.next (QueueStep.enqueues three false (omega arith) refl) (
      QueueRun.next (QueueStep.writes_stream false 0 (some 2) (9 ∷ []) (omega arith)) QueueRun.here)

QueueRun-Implements_example : (b : Pipe) × PipeRun dry actions b × Implements b taken_two
QueueRun-Implements_example = QueueRun-Implements dry untouched-Implements two_taken

QueueRun-sent_example :
    (rest : List ℕ) × (written_bytes actions ≡ sent_bytes actions ++ rest)
    × (length (sent_bytes actions) ≡ taken_two.tx_submitted_offset)
QueueRun-sent_example = QueueRun-sent untouched-Implements two_taken
