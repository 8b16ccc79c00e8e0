-- ===== src/Quic/Protocol/Pipe/Packets.antt =====
-- writeOnePacket of native/quic/Connection.cpp as a step of the send side.
use ffl_p2p.Prelude.{ℕ, ◌≤◌, Bool, Option, none, some, List, length, Result, if_cases}
use ffl_p2p.Quic.Library.{StreamWrite, StreamReply, Written, wrote, failed, Error}
use ffl_p2p.Quic.Protocol.{
  ProtocolState, offer, has_pending_write, finish_stream_write, write_on, write_one_packet,
}
use ffl_p2p.Quic.Protocol.Transmit.{taken}
use ffl_p2p.Quic.Protocol.Pipe.{Action, QueueStep}

-- A reply of ngtcp2 to an offer.
replied-Step :
    (padding : Bool) (p : ProtocolState) (id : ℕ) (written : Written) (accepted : Option ℕ)
    → taken accepted ≤ length (offer padding p id).bytes
    → (x : Action) × QueueStep p x
        (finish_stream_write padding p (record { written = written; accepted = accepted })).0
replied-Step padding p id (wrote packet) accepted fits =
    (_, QueueStep.writes_stream padding id accepted packet fits)
replied-Step padding p id (failed code) accepted fits =
    (_, QueueStep.stream_fails padding accepted code)

module _ {W : Type 0} (write_stream : StreamWrite → W → W × StreamReply)
    (write_pkt : W → W × Written) where
  -- ngtcp2 takes no more of an offer than it was given.
  pub record TakesOffers : Type 0 where
    pub within : (o : StreamWrite) (w : W) → taken (write_stream o w).1.accepted ≤ length o.bytes

  write_on-Step :
      (stream : Option ℕ) (padding : Bool) (w : W) (p : ProtocolState)
      → TakesOffers
      → (x : Action) × QueueStep p x (write_on write_stream write_pkt stream padding w p).1
  write_on-Step none padding w p law = (_, QueueStep.writes_plain padding (write_pkt w).1)
  write_on-Step (some stream) padding w p law =
      if_cases {A = W × ProtocolState × Result Error (List ℕ)}
        (λ y. (x : Action) × QueueStep p x y.1) (has_pending_write p)
        (λ h.
          let reply = (write_stream (offer padding p stream) w).1 in
          replied-Step padding p stream reply.written reply.accepted
            (law.within (offer padding p stream) w))
        (λ h. (_, QueueStep.writes_plain padding (write_pkt w).1))

  -- Writing a packet is one operation on the send side, whatever ngtcp2 answers, so long as it takes no
  -- more of an offer than it was given.
  pub write_one_packet-Step :
      (padding : Bool) (w : W) (p : ProtocolState)
      → TakesOffers
      → (x : Action) × QueueStep p x (write_one_packet write_stream write_pkt padding w p).1
  unfolding write_one_packet
  write_one_packet-Step padding w p law = write_on-Step p.tx_stream_id padding w p law
