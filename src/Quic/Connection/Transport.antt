-- ===== src/Quic/Connection/Transport.antt =====
-- sendTransportOnce, scheduleSendRetry, clearSendRetry, retainPendingTransportSend,
-- sendTransportBuffer and flushPendingTransportSend of native/quic/Connection.cpp. A step takes the
-- world and the connection, and leaves both also where it throws.
pub mod Sends
use ffl_p2p.Prelude.{
  ℕ, ◌+◌, ◌-◌, ◌%◌, min, Bool, true, false, not, ◌&&◌, ◌||◌, List, length, drop, leb, ◌==◌,
  if◌then◌else◌, Result, ok, err,
}
use ffl_p2p.Quic.Library.{Error, message, infinite_timestamp, Outside}
use ffl_p2p.Quic.Protocol.{add64}
use ffl_p2p.Quic.Connection.{Connection, PendingSend, cleared, has_remaining_data, remaining_data}
use ffl_p2p.Ice.Binding.{SendResult, SendStatus, complete, blocked, oversized, send, send_aggregate}

pub data TransportSendOutcome : Type 0 where
  sent held : TransportSendOutcome

abbrev pub send_retry_delay_ns : ℕ
send_retry_delay_ns = 1000000

abbrev pub is_oversized : SendStatus → Bool
is_oversized oversized = true
is_oversized _ = false

abbrev pub clear_send_retry : Connection → Connection
clear_send_retry c = record c { send_retry_expiry = infinite_timestamp }

abbrev pub drop_oversized : Connection → Connection
drop_oversized c = record c { too_large_send_drops = add64 c.too_large_send_drops 1 }

abbrev pub Outcome : Type 0 → Type 0
Outcome W = W × Connection × Result Error TransportSendOutcome

module _ {W : Type 0} (out : Outside W) where
  unfoldable pub schedule_send_retry : Connection → W → W × Connection
  schedule_send_retry c w =
      let (w', now) = out.now w in
      (w', record c { send_retry_expiry = add64 now send_retry_delay_ns })

  -- ngtcp2's pacing hears of a send that got out, and of one that was dropped.
  unfoldable pub note_sent : W → Result Error SendResult → W
  note_sent w (err e) = w
  note_sent w (ok r) =
      let (w', now) = out.now w in
      if not (r.sent_size == 0) || is_oversized r.status then out.update_tx_time now w' else w

  unfoldable pub send_transport_once :
      Connection → List ℕ → ℕ → Bool → W → W × Result Error SendResult
  send_transport_once c bytes segment_size aggregate w =
      let (w', r) =
        if aggregate
        then send_aggregate out c.binding bytes (min segment_size (length bytes)) w
        else send out c.binding bytes w in
      (note_sent w' r, r)

  unfoldable pub retain_pending_transport_send :
      Connection → List ℕ → ℕ → ℕ → ℕ → Bool → W → Outcome W
  retain_pending_transport_send c bytes sent_size segment_size packet_count aggregate w =
      let (w', d) =
        schedule_send_retry
          (record c {
            pending_send = record {
              bytes = drop sent_size bytes;
              offset = 0;
              segment_size = segment_size;
              packet_count = packet_count;
              logical_bytes = length bytes;
              aggregate = aggregate;
            };
          })
          w in
      if has_remaining_data c.pending_send
      then (w, c, err (message "QUIC transport send is already pending"))
      else if leb (length bytes) sent_size
      then (w, c, err (message "blocked QUIC transport send has no pending bytes"))
      else if aggregate && not (sent_size == 0) && not (sent_size % segment_size == 0)
      then (w, c, err (message "libjuice aggregate send reported non-segment-aligned progress"))
      else (w', d, ok held)

  unfoldable pub on_sent : Connection → List ℕ → ℕ → ℕ → Bool → W → SendStatus → ℕ → Outcome W
  on_sent c bytes segment_size packet_count aggregate w complete sent_size =
      (w, clear_send_retry c, ok sent)
  on_sent c bytes segment_size packet_count aggregate w oversized sent_size =
      (w, clear_send_retry (drop_oversized c), ok sent)
  on_sent c bytes segment_size packet_count aggregate w blocked sent_size =
      retain_pending_transport_send c bytes sent_size segment_size packet_count aggregate w

  unfoldable pub after_send :
      Connection → List ℕ → ℕ → ℕ → Bool → W → Result Error SendResult → Outcome W
  after_send c bytes segment_size packet_count aggregate w (err e) = (w, c, err e)
  after_send c bytes segment_size packet_count aggregate w (ok r) =
      on_sent c bytes segment_size packet_count aggregate w r.status r.sent_size

  unfoldable pub send_transport_buffer : Connection → List ℕ → ℕ → ℕ → Bool → W → Outcome W
  send_transport_buffer c bytes segment_size packet_count aggregate w =
      let (w', r) = send_transport_once c bytes segment_size aggregate w in
      if has_remaining_data c.pending_send
      then (w, c, err (message "new QUIC transport send started while retry data is pending"))
      else after_send c bytes segment_size packet_count aggregate w' r

  unfoldable pub on_retried : Connection → W → SendStatus → Outcome W
  on_retried c w oversized =
      (w, clear_send_retry (record (drop_oversized c) { pending_send = cleared }), ok sent)
  on_retried c w complete =
      if has_remaining_data c.pending_send
      then (w, c, err (message "libjuice completed a QUIC retry with pending bytes remaining"))
      else (w, clear_send_retry (record c { pending_send = cleared }), ok sent)
  on_retried c w blocked =
      let (w', d) = schedule_send_retry c w in
      if not (has_remaining_data c.pending_send)
      then (w, c, err (message "libjuice blocked a QUIC retry after reporting all bytes sent"))
      else (w', d, ok held)

  abbrev pub progressed : Connection → ℕ → Connection
  progressed c n =
      let s = c.pending_send in record c { pending_send = record s { offset = s.offset + n } }

  unfoldable pub after_retry : Connection → W → Result Error SendResult → Outcome W
  after_retry c w (err e) = (w, c, err e)
  after_retry c w (ok r) = on_retried (progressed c r.sent_size) w r.status

  unfoldable pub flush_pending_transport_send : Connection → W → Outcome W
  flush_pending_transport_send c w =
      let s = c.pending_send in
      let (w', r) = send_transport_once c (remaining_data s) s.segment_size s.aggregate w in
      if not (has_remaining_data s) then (w, c, ok sent) else after_retry c w' r
