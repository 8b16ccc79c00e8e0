-- ===== src/Quic/Protocol/Pipe.antt =====
-- The send side of `Connection::ProtocolState` against a pipe of bytes.
pub mod Steps
pub mod Runs
pub mod Packets
use ffl_p2p.Prelude.{
  ℕ, ◌+◌, ◌-◌, ◌^◌, ◌≤◌, ◌<◌, ◌≡◌, refl, sym, ap, ◌∙◌, subst, Bool, true, false, Option, none, some,
  List, [], ◌∷◌, ◌++◌, append-nil, append_assoc, arith, length, take, drop, length-append,
  length-take, take-append-drop, drop-append, if_cases, Result, ok, err, min,
}
use mathlib.Core.Option.{some-injective}
use ffl_p2p.Quic.Library.{Code, Error, Written, wrote, failed}
use ffl_p2p.Quic.Protocol.{
  ProtocolState, enqueue, offer, accept, count_packet, finish_stream_write, finish_plain_write,
  acknowledge, is_blocked_code, TxChunk, next_transmit_chunk, take_accepted,
}
use ffl_p2p.Quic.Protocol.Invariant.{IsValid}
use ffl_p2p.Quic.Protocol.Transmit.{taken, offer-stream, accept-IsValid, enqueue-IsValid}
use ffl_p2p.Quic.Protocol.Acknowledge.{acknowledge-IsValid}

-- What is written into the pipe, what is sent out of it, and what the peer has acknowledged.
pub data Action : Type 0 where
  writes : List ℕ → Action
  sends : List ℕ → Action
  acknowledges : ℕ → Action

pub record Pipe : Type 0 where
  pub written : List ℕ
  pub sent : List ℕ
  pub acked : ℕ

-- A pipe sends its bytes once and in order, and what is acknowledged was sent.
pub data PipeStep (a : Pipe) : Action → Pipe → Type 0 where
  writes :
      (bytes : List ℕ)
      → PipeStep a (Action.writes bytes) (record a { written = a.written ++ bytes })
  sends :
      (bytes rest : List ℕ)
      → a.written ≡ a.sent ++ bytes ++ rest
      → PipeStep a (Action.sends bytes) (record a { sent = a.sent ++ bytes })
  acknowledges :
      (n : ℕ)
      → a.acked + n ≤ length a.sent
      → PipeStep a (Action.acknowledges n) (record a { acked = a.acked + n })

-- A change that leaves the queue and its offsets alone, such as the acknowledgement of the FIN.
pub record Leaves (p q : ProtocolState) : Type 0 where
  pub chunks : q.tx_chunks ≡ p.tx_chunks
  pub next_offset : q.tx_next_offset ≡ p.tx_next_offset
  pub submitted : q.tx_submitted_offset ≡ p.tx_submitted_offset
  pub acked : q.tx_acked_offset ≡ p.tx_acked_offset
  pub requested : q.tx_fin_requested ≡ p.tx_fin_requested
  pub finished : q.tx_fin_submitted ≡ p.tx_fin_submitted

-- The operations on the state. ngtcp2 takes no more of an offer than it was given, and acknowledges
-- bytes in order that were submitted.
pub data QueueStep (p : ProtocolState) : Action → ProtocolState → Type 0 where
  enqueues :
      (bytes : List ℕ) (fin : Bool)
      → p.tx_next_offset + length bytes < 2 ^ 64
      → p.tx_fin_submitted ≡ false
      → QueueStep p (Action.writes bytes) (enqueue p bytes fin)
  writes_stream :
      (padding : Bool) (id : ℕ) (accepted : Option ℕ) (packet : List ℕ)
      → taken accepted ≤ length (offer padding p id).bytes
      → QueueStep p
          (Action.sends (take (taken accepted) (offer padding p id).bytes))
          (finish_stream_write padding p (record { written = wrote packet; accepted = accepted })).0
  stream_fails :
      (padding : Bool) (accepted : Option ℕ) (code : Code)
      → QueueStep p
          (Action.sends [])
          (finish_stream_write padding p (record { written = failed code; accepted = accepted })).0
  writes_plain :
      (padding : Bool) (written : Written)
      → QueueStep p (Action.sends []) (finish_plain_write padding p written).0
  acknowledges :
      (id size : ℕ) (q : ProtocolState)
      → p.tx_stream_id ≡ some id
      → 0 < size
      → p.tx_acked_offset + size ≤ p.tx_submitted_offset
      → acknowledge p id p.tx_acked_offset size ≡ some q
      → QueueStep p (Action.acknowledges size) q
  passes : (q : ProtocolState) → Leaves p q → QueueStep p (Action.sends []) q

-- The state stands for the pipe: its queue holds what is written past some base, and its offsets say
-- how much of that is sent and acknowledged.
pub record Implements (a : Pipe) (p : ProtocolState) : Type 0 where
  pub base : ℕ
  pub valid : IsValid a.written base p
  pub rest : List ℕ
  pub split : a.written ≡ a.sent ++ rest
  pub submitted : length a.sent ≡ p.tx_submitted_offset
  pub acked : a.acked ≡ p.tx_acked_offset
