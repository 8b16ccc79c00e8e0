-- ===== src/Quic/Protocol.antt =====
-- `Connection::ProtocolState`: the send side of the stream and the callbacks that move it.
-- Stream identifiers are `none` for -1, and `conn` says whether the ngtcp2 connection exists.
pub mod Invariant
pub mod Acknowledge
pub mod Transmit
pub mod Pipe
mod Tests
use ffl_p2p.Prelude.{
  ℕ, zero, suc, ◌+◌, ◌-◌, ◌%◌, ◌^◌, Bool, true, false, not, ◌&&◌, ◌||◌, Option, none, some, List,
  [], ◌∷◌, ◌++◌, length, drop, ltb, leb, ◌==◌, if◌then◌else◌, is_some, is_empty, Result, ok, err,
}
use ffl_p2p.Quic.Library.{
  Code, stream_data_blocked, stream_shut_wr, stream_id_blocked, Error, library, StreamWrite,
  StreamReply, Written, wrote, failed,
}

-- `uint64_t` addition.
abbrev pub add64 : ℕ → ℕ → ℕ
add64 a b = (a + b) % 2 ^ 64

pub record TxChunk : Type 0 where
  pub offset : ℕ
  pub bytes : List ℕ
  pub submitted : ℕ

pub record ProtocolState : Type 0 where
  pub server : Bool
  pub conn : Bool
  pub handshake_complete : Bool
  pub handshake_confirmed : Bool
  pub peer_finished : Bool
  pub tx_stream_id : Option ℕ
  pub rx_stream_id : Option ℕ
  pub rx_offset : ℕ
  pub tx_chunks : List TxChunk
  pub tx_next_offset : ℕ
  pub tx_submitted_offset : ℕ
  pub tx_acked_offset : ℕ
  pub tx_fin_requested : Bool
  pub tx_fin_submitted : Bool
  pub tx_fin_acked : Bool
  pub stream_closed : Bool
  pub aggregate_packet_count : ℕ
  pub aggregate_write_error : Option Error

unfoldable pub release_transport : ProtocolState → ProtocolState
release_transport p = record p { conn = false }

-- The part of `processSend` that takes the operation's data and its FIN.
unfoldable pub enqueue : ProtocolState → List ℕ → Bool → ProtocolState
enqueue p bytes fin = record p {
  tx_chunks = if is_empty bytes then p.tx_chunks else p.tx_chunks ++ (chunk ∷ []);
  tx_next_offset =
      if is_empty bytes then p.tx_next_offset else add64 p.tx_next_offset (length bytes);
  tx_fin_requested = p.tx_fin_requested || fin;
}
  where
    chunk : TxChunk
    chunk = record { offset = p.tx_next_offset; bytes = bytes; submitted = 0 }

pub has_pending_write : ProtocolState → Bool
has_pending_write p =
    is_some p.tx_stream_id
    && (ltb p.tx_submitted_offset p.tx_next_offset
        || (p.tx_fin_requested && not p.tx_fin_submitted))

abbrev shift_index : Option (ℕ × TxChunk) → Option (ℕ × TxChunk)
shift_index none = none
shift_index (some (i, c)) = some (suc i, c)

-- The source returns a pointer into the queue: here the chunk's position and the chunk.
pub next_transmit_chunk : ℕ → List TxChunk → Option (ℕ × TxChunk)
next_transmit_chunk s [] = none
next_transmit_chunk s (c ∷ cs) =
    if add64 c.offset c.submitted == s && ltb c.submitted (length c.bytes)
    then some (0, c)
    else shift_index (next_transmit_chunk s cs)

-- `chunk->submitted += accepted` through the pointer.
pub advance : ℕ → ℕ → List TxChunk → List TxChunk
advance i k [] = []
advance zero k (c ∷ cs) = record c { submitted = add64 c.submitted k } ∷ cs
advance (suc i) k (c ∷ cs) = c ∷ advance i k cs

abbrev pub remaining : Option (ℕ × TxChunk) → List ℕ
remaining none = []
remaining (some (i, c)) = drop c.submitted c.bytes

pub sending_fin : ProtocolState → Option (ℕ × TxChunk) → Bool
sending_fin p chunk =
    p.tx_fin_requested
    && not p.tx_fin_submitted
    && (p.tx_submitted_offset == p.tx_next_offset
        || (is_some chunk
            && (add64 p.tx_submitted_offset (length (remaining chunk)) == p.tx_next_offset)))

-- What `writeOnePacket` hands to `ngtcp2_conn_write_stream`.
pub offer : Bool → ProtocolState → ℕ → StreamWrite
offer padding p stream = record {
  stream = stream;
  bytes = remaining (next_transmit_chunk p.tx_submitted_offset p.tx_chunks);
  fin = sending_fin p (next_transmit_chunk p.tx_submitted_offset p.tx_chunks);
  padding = padding;
}

-- The bytes that ngtcp2 accepted: `accepted > 0 && chunk`.
abbrev pub take_accepted : ProtocolState → Option (ℕ × TxChunk) → Option ℕ → ProtocolState
take_accepted p none accepted = p
take_accepted p (some (i, c)) none = p
take_accepted p (some (i, c)) (some k) = record p {
  tx_chunks = if k == 0 then p.tx_chunks else advance i k p.tx_chunks;
  tx_submitted_offset = if k == 0 then p.tx_submitted_offset else add64 p.tx_submitted_offset k;
}

-- `writeOnePacket` once ngtcp2 has written `packet` and taken `accepted` of the offer.
pub accept : ProtocolState → Option ℕ → List ℕ → ProtocolState
accept p accepted packet =
    let chunk = next_transmit_chunk p.tx_submitted_offset p.tx_chunks in
    let q = take_accepted p chunk accepted in
    record q {
      tx_fin_submitted =
          (sending_fin p chunk
            && not (is_empty packet)
            && (q.tx_submitted_offset == q.tx_next_offset)
            && is_some accepted)
          || q.tx_fin_submitted;
    }

-- `++state.aggregatePacketCount` for a written packet of an aggregate.
pub count_packet : Bool → List ℕ → ProtocolState → ProtocolState
count_packet padding packet p = record p {
  aggregate_packet_count =
      if padding && not (is_empty packet)
      then add64 p.aggregate_packet_count 1
      else p.aggregate_packet_count;
}

-- The codes that only say that the stream cannot take data now.
pub is_blocked_code : Code → Bool
is_blocked_code stream_data_blocked = true
is_blocked_code stream_shut_wr = true
is_blocked_code stream_id_blocked = true
is_blocked_code _ = false

abbrev pub finish_stream_write :
    Bool → ProtocolState → StreamReply → ProtocolState × Result Error (List ℕ)
finish_stream_write padding p r = elim r.written [
  | wrote packet ↦ (count_packet padding packet (accept p r.accepted packet), ok packet)
  | failed code ↦
      if is_blocked_code code
      then (p, ok [])
      else (p, err (library "ngtcp2_conn_write_stream" code))
]

abbrev pub finish_plain_write :
    Bool → ProtocolState → Written → ProtocolState × Result Error (List ℕ)
finish_plain_write padding p (wrote packet) = (count_packet padding packet p, ok packet)
finish_plain_write padding p (failed code) = (p, err (library "ngtcp2_conn_write_pkt" code))

-- `writeOnePacket`. The result is the packet in the output, empty where the source returns 0.
module _ {W : Type 0} (write_stream : StreamWrite → W → W × StreamReply)
    (write_pkt : W → W × Written) where
  abbrev pub write_plain : Bool → W → ProtocolState → W × ProtocolState × Result Error (List ℕ)
  write_plain padding w p =
      let (w', written) = write_pkt w in
      let (q, r) = finish_plain_write padding p written in (w', q, r)

  abbrev pub write_data : ℕ → Bool → W → ProtocolState → W × ProtocolState × Result Error (List ℕ)
  write_data stream padding w p =
      let (w', reply) = write_stream (offer padding p stream) w in
      let (q, r) = finish_stream_write padding p reply in (w', q, r)

  abbrev pub write_on :
      Option ℕ → Bool → W → ProtocolState → W × ProtocolState × Result Error (List ℕ)
  write_on none padding w p = write_plain padding w p
  write_on (some stream) padding w p =
      if has_pending_write p then write_data stream padding w p else write_plain padding w p

  pub write_one_packet : Bool → W → ProtocolState → W × ProtocolState × Result Error (List ℕ)
  write_one_packet padding w p = write_on p.tx_stream_id padding w p

abbrev is_stream : Option ℕ → ℕ → Bool
is_stream none stream = false
is_stream (some t) stream = t == stream

-- `acknowledgedStreamDataCallback`: the chunks that end at or below the acknowledged offset go.
pub pop_acknowledged : ℕ → List TxChunk → List TxChunk
pop_acknowledged acked [] = []
pop_acknowledged acked (c ∷ cs) =
    let rest = pop_acknowledged acked cs in
    if ltb acked (add64 c.offset (length c.bytes)) then c ∷ cs else rest

-- `none` is NGTCP2_ERR_CALLBACK_FAILURE, which leaves the state as it was.
pub acknowledge : ProtocolState → ℕ → ℕ → ℕ → Option ProtocolState
acknowledge p stream offset size =
    if is_some p.tx_stream_id && not (is_stream p.tx_stream_id stream)
    then none
    else if size == 0
    then (if not p.tx_fin_submitted || not (offset == p.tx_next_offset)
        then none
        else some (record p { tx_fin_acked = true }))
    else if not (offset == p.tx_acked_offset)
    then none
    else some (record p {
      tx_acked_offset = add64 offset size;
      tx_chunks = pop_acknowledged (add64 offset size) p.tx_chunks;
    })
