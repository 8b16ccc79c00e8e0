-- ===== src/Quic/Connection/Callbacks.antt =====
-- What ngtcp2 calls back while it reads a packet (native/quic/Connection.cpp): the handshake's two
-- callbacks, acknowledgedStreamDataCallback and streamCloseCallback with the mark methods that they
-- call, and feedPacket, which hands a packet to ngtcp2.
use ffl_p2p.Prelude.{
  leb, length, ◌&&◌, ℕ, Bool, true, false, not, ◌&&◌, ◌||◌, Option, none, some, List, [], ◌∷◌, ◌==◌,
  if◌then◌else◌, is_empty, Result, ok, err,
}
use ffl_p2p.Quic.Library.{
  VersionCid, Code, callback_failure, Error, message, library, Event, handshake_completed,
  handshake_confirmed, stream_data, acked_stream_data, stream_close, Outside,
}
use ffl_p2p.Quic.Protocol.{ProtocolState, add64, acknowledge}
use ffl_p2p.Quic.Connection.{Connection, Role, server, client}
use ffl_p2p.Quic.Connection.Receive.{receive_stream_data}

unfoldable pub mark_handshake_complete : Connection → Connection
mark_handshake_complete c = record c {
  app = record (c.app) { handshake_complete = true; generation = add64 c.app.generation 1 };
}

unfoldable pub mark_handshake_confirmed : Connection → Connection
mark_handshake_confirmed c = record c {
  app = record (c.app) { handshake_confirmed = true; generation = add64 c.app.generation 1 };
}

unfoldable pub mark_acknowledged : Connection → Connection
mark_acknowledged c = record c {
  app = record (c.app) {
    submitted_write_offset = c.protocol.tx_submitted_offset;
    acked_write_offset = c.protocol.tx_acked_offset;
    fin_submitted = c.protocol.tx_fin_submitted;
    fin_acked = c.protocol.tx_fin_acked;
    generation = add64 c.app.generation 1;
  };
}

unfoldable pub mark_stream_closed : Connection → Connection
unfolding mark_acknowledged
mark_stream_closed c =
    mark_acknowledged (record c { app = record (c.app) { stream_closed = true } })

abbrev pub on_acknowledged : Connection → Option ProtocolState → Connection × Bool
on_acknowledged c none = (c, false)
on_acknowledged c (some p) = (mark_acknowledged (record c { protocol = p }), true)

unfoldable pub acknowledged_stream_data : Connection → ℕ → ℕ → ℕ → Connection × Bool
unfolding mark_acknowledged
acknowledged_stream_data c stream offset size =
    on_acknowledged c (acknowledge c.protocol stream offset size)

abbrev pub is_other : Option ℕ → ℕ → Bool
is_other none stream = false
is_other (some s) stream = not (s == stream)

-- `streamCloseCallback` returns 0 in every case.
unfoldable pub close_stream : Connection → Bool → ℕ → Connection
close_stream c app_error stream =
    let p = c.protocol in
    if is_other p.rx_stream_id stream && is_other p.tx_stream_id stream || app_error
    then c
    else mark_stream_closed (record c {
      protocol = record p {
        stream_closed = true;
        tx_fin_acked = p.tx_fin_requested || p.tx_fin_acked;
      };
    })

-- One callback: the connection, and whether it returns 0.
unfoldable pub run_event : Connection → Event → Connection × Bool
run_event c handshake_completed = (
  mark_handshake_complete
      (record c { protocol = record (c.protocol) { handshake_complete = true } }),
  true,
)
run_event c handshake_confirmed = (
  mark_handshake_confirmed
      (record c { protocol = record (c.protocol) { handshake_confirmed = true } }),
  true,
)
run_event c (stream_data fin stream offset bytes) = receive_stream_data c fin stream offset bytes
run_event c (acked_stream_data stream offset size) = acknowledged_stream_data c stream offset size
run_event c (stream_close app_error stream) = (close_stream c app_error stream, true)

-- ngtcp2 goes on to the next callback only after one that returned 0.
unfoldable pub run_events : Connection → List Event → Connection × Bool
run_events c [] = (c, true)
run_events c (e ∷ es) =
    let (d, done) = run_event c e in elim done [ true ↦ run_events d es | false ↦ (d, false) ]

-- NGTCP2_PROTO_VER_V1 and NGTCP2_MAX_CIDLEN
abbrev quic_version_1 : ℕ
quic_version_1 = 1

abbrev max_cid_length : ℕ
max_cid_length = 20

abbrev pub Stepped : Type 0 → Type 0
Stepped W = W × Connection × Result Error (Unit {0})

-- Statements in sequence: an exception ends the chain.
unfoldable pub and_then : {W : Type 0} → Stepped W → (Connection → W → Stepped W) → Stepped W
and_then (w, c, err e) next = (w, c, err e)
and_then (w, c, ok u) next = next c w

abbrev pub thrown : Option Error → Result Error (Unit {0})
thrown none = ok tt
thrown (some e) = err e

module _ {W : Type 0} (out : Outside W) where
  -- A failed initialization leaves no connection. `initializeServer` checks its credentials first.
  abbrev started_as : Bool → Connection → W → W × Option Error → Stepped W
  started_as as_server c w (w', none) =
      (w', record c { protocol = record (c.protocol) { server = as_server; conn = true } }, ok tt)
  started_as as_server c w (w', some e) =
      (w', record c { protocol = record (c.protocol) { server = as_server } }, err e)

  unfoldable pub initialize_client : Connection → W → Stepped W
  initialize_client c w =
      if is_empty c.certificate
      then (w, c, err (message "client requires the pinned QUIC certificate"))
      else started_as false c w (out.initialize_client c.certificate w)

  -- A connection identifier that an Initial packet can have.
  abbrev is_cid : List ℕ → Bool
  is_cid cid = not (is_empty cid) && leb (length cid) max_cid_length

  unfoldable pub accept_initial : Option VersionCid → Connection → W → Stepped W
  accept_initial none c w = (w, c, err (message "invalid QUIC Initial packet"))
  accept_initial (some v) c w =
      if v.version == quic_version_1 && is_cid v.dcid && is_cid v.scid
      then started_as true c w (out.initialize_server c.certificate c.private_key v.dcid v.scid w)
      else (w, c, err (message "invalid QUIC Initial packet"))

  unfoldable pub initialize_server : List ℕ → Connection → W → Stepped W
  initialize_server packet c w =
      if is_empty c.certificate || is_empty c.private_key
      then (w, c, err (message "server QUIC credentials are unavailable"))
      else accept_initial (out.decode_version_cid packet)
          (record c { protocol = record (c.protocol) { server = true } }) w

  abbrev pub is_client : Role → Bool
  is_client client = true
  is_client server = false

  unfoldable pub ensure_initialized : List ℕ → Connection → W → Stepped W
  ensure_initialized packet c w =
      if c.protocol.conn
      then (w, c, ok tt)
      else if is_client c.role
      then (w, c, err (message "client QUIC connection is not initialized"))
      else initialize_server packet c w

  abbrev read_code : Option Code → Bool → Option Code
  read_code code true = code
  read_code code false = some callback_failure

  abbrev failed_read : Option Code → Option Error
  failed_read none = none
  failed_read (some code) = some (library "ngtcp2_conn_read_pkt" code)

  unfoldable pub read_packet : List ℕ → Connection → W → Stepped W
  read_packet packet c w =
      let (w', events, code) = out.read_pkt packet w in
      let (d, done) = run_events c events in (w', d, thrown (failed_read (read_code code done)))

  unfoldable pub feed_packet : List ℕ → Connection → W → Stepped W
  feed_packet packet c w = and_then (ensure_initialized packet c w) (λ d v. read_packet packet d v)
