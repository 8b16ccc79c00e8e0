-- ===== src/Quic/Connection/Flush.antt =====
-- flushPackets of native/quic/Connection.cpp, with writeAggregatePacketCallback. The loop over single
-- packets is recursion on what is left of the budget. The loop over aggregates takes as many packets
-- off the budget as ngtcp2 reports to have written: it runs on fuel, and `none` is its running out.
pub mod Settles
use ffl_p2p.Prelude.{
  ℕ, zero, suc, ◌+◌, ◌-◌, Bool, true, false, not, ◌||◌, Option, none, some, List, [], ◌∷◌, length,
  ◌==◌, if◌then◌else◌, is_empty, Result, ok, err,
}
use ffl_p2p.Quic.Library.{Code, callback_failure, Error, library, Written, wrote, failed, Outside}
use ffl_p2p.Quic.Protocol.{ProtocolState, write_one_packet}
use ffl_p2p.Quic.Connection.{Connection}
use ffl_p2p.Quic.Connection.Transport.{
  TransportSendOutcome, sent, held, Outcome, send_transport_buffer, flush_pending_transport_send,
}

abbrev pub max_packets_per_flush : ℕ
max_packets_per_flush = 512

abbrev pub Flushed : Type 0 → Type 0
Flushed W = W × Connection × Result Error Bool

-- `ngtcp2_conn_write_aggregate_pkt2`: it calls the given writer, at most so many times, and reports
-- the bytes in the output and the size of a segment.
abbrev pub AggregateWriter : Type 0 → Type 0
AggregateWriter W =
    (ProtocolState → W → W × ProtocolState × Written)
    → ℕ
    → ProtocolState
    → W
    → W × ProtocolState × Written × ℕ

-- A blocked send ends the flush, and so does an exception.
unfoldable pub unless_held : {W X : Type 0} → Outcome W → (Flushed W → X) → (Connection → W → X) → X
unless_held (w, c, err e) stop next = stop (w, c, err e)
unless_held (w, c, ok held) stop next = stop (w, c, ok false)
unless_held (w, c, ok sent) stop next = next c w

module _ {W : Type 0} (out : Outside W) (write_aggregate : AggregateWriter W) where
  abbrev write_single : Connection → W → W × Connection × Result Error (List ℕ)
  write_single c w =
      let (w', p, r) = write_one_packet out.write_stream out.write_pkt false w c.protocol in
      (w', record c { protocol = p }, r)

  unfoldable pub on_single :
      W × Connection × Result Error (List ℕ) → (Connection → W → Flushed W) → Flushed W
  on_single (w, c, err e) next = (w, c, err e)
  on_single (w, c, ok []) next = (w, c, ok false)
  on_single (w, c, ok (x ∷ xs)) next =
      unless_held (send_transport_buffer out c (x ∷ xs) (length (x ∷ xs)) 1 false w) (λ f. f) next

  -- `budget` is kMaxPacketsPerFlush less the packets written so far.
  unfoldable pub flush_single : ℕ → Connection → W → Flushed W
  flush_single zero c w = (w, c, ok true)
  flush_single (suc budget) c w = on_single (write_single c w) (λ d v. flush_single budget d v)

  abbrev recorded : ProtocolState → Result Error (List ℕ) → ProtocolState × Written
  recorded p (ok packet) = (p, wrote packet)
  recorded p (err e) = (record p { aggregate_write_error = some e }, failed callback_failure)

  -- `writeAggregatePacketCallback`
  pub write_aggregate_packet : ProtocolState → W → W × ProtocolState × Written
  write_aggregate_packet p w =
      let (w', q, r) = write_one_packet out.write_stream out.write_pkt true w p in
      let (shared, written) = recorded q r in (w', shared, written)

  abbrev write_failure : Option Error → Code → Error
  write_failure none code = library "ngtcp2_conn_write_aggregate_pkt2" code
  write_failure (some e) code = e

  abbrev segment_of : ℕ → ℕ → ℕ
  segment_of segment written = if segment == 0 then written else segment

  -- What is done with an aggregate of `packets` packets.
  unfoldable pub on_aggregate :
      W
      → Connection
      → Option Error
      → Written
      → ℕ
      → ℕ
      → (Connection → W → Option (Flushed W))
      → Option (Flushed W)
  on_aggregate w c e (failed code) segment packets next = some (w, c, err (write_failure e code))
  on_aggregate w c e (wrote []) segment packets next = some (w, c, ok false)
  on_aggregate w c e (wrote (x ∷ xs)) segment zero next = some (w, c, ok false)
  on_aggregate w c e (wrote (x ∷ xs)) segment (suc packets) next =
      unless_held
        (send_transport_buffer out c (x ∷ xs) (segment_of segment (length (x ∷ xs))) (suc packets)
          true w)
        some next

  -- `packets` is the growth of a counter that writeOnePacket only raises; the source casts it to `int`.
  unfoldable pub flush_aggregate : ℕ → ℕ → Connection → W → Option (Flushed W)
  flush_aggregate fuel zero c w = some (w, c, ok true)
  flush_aggregate zero (suc budget) c w = none
  flush_aggregate (suc fuel) (suc budget) c w =
      let cleared = record (c.protocol) { aggregate_write_error = none } in
      let (v, p, written, segment) =
        write_aggregate write_aggregate_packet (suc budget) cleared w in
      let packets = p.aggregate_packet_count - c.protocol.aggregate_packet_count in
      on_aggregate v (record c { protocol = p }) p.aggregate_write_error written segment packets
        (λ d u. flush_aggregate fuel (suc budget - packets) d u)

  unfoldable pub write_packets : Connection → W → Option (Flushed W)
  write_packets c w =
      if c.aggregate_packets
      then flush_aggregate max_packets_per_flush max_packets_per_flush c w
      else some (flush_single max_packets_per_flush c w)

  -- Whether the budget is used up, and so more may wait to be written.
  unfoldable pub flush_packets : Connection → W → Option (Flushed W)
  flush_packets c w =
      if not c.protocol.conn
      then some (w, c, ok false)
      else unless_held (flush_pending_transport_send out c w) some write_packets
