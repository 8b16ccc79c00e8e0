-- ===== src/Quic/Connection/Application.antt =====
-- The application's side of a connection (native/quic/Connection.cpp): createSendOperation, start and
-- close up to their waiting, and the questions about what was written.
pub mod Writes
use ffl_p2p.Prelude.{
  ℕ, ◌+◌, ◌-◌, Bool, true, false, not, ◌&&◌, ◌||◌, Option, none, some, List, [], length, ltb, leb,
  ◌==◌, if◌then◌else◌, is_empty, is_some, Result, ok, err,
}
use ffl_p2p.Quic.Library.{Error, message, Outside}
use ffl_p2p.Quic.Protocol.{add64}
use ffl_p2p.Quic.Connection.{
  Connection, AppState, Operation, api_start, api_send, shutdown, queue_operation,
}
use ffl_p2p.Ice.Binding.{JuiceBinding, attach, detach, limit_datagram_size}

-- The operation is queued once the bytes are counted.
abbrev enter_send : Connection → List ℕ → Bool → Connection
enter_send c bytes fin =
    queue_operation
      (record c {
        application_write_offset =
            if is_empty bytes
            then c.application_write_offset
            else add64 c.application_write_offset (length bytes);
        application_fin_requested = fin || c.application_fin_requested;
      })
      (record { type = api_send; bytes = bytes; fin = fin; completion = none })

abbrev enter_data : Connection → Option (List ℕ) → Bool → Connection × Result Error (Unit {0})
enter_data c none fin = (c, err (message "QUIC send data is null"))
enter_data c (some bytes) fin = (enter_send c bytes fin, ok tt)

-- `none` is a null pointer with a size that is not 0.
unfoldable pub create_send_operation :
    Connection → Option (List ℕ) → Bool → Connection × Result Error (Unit {0})
create_send_operation c bytes fin =
    if not c.started
    then (c, err (message "QUIC runtime is not started"))
    else if c.stopped
    then (c, err (message "QUIC runtime is stopped"))
    else enter_data c bytes fin

unfoldable pub has_pending_write : Connection → Bool
has_pending_write c =
    ltb c.app.submitted_write_offset c.application_write_offset
    || (c.application_fin_requested && not c.app.fin_submitted)

unfoldable pub get_buffered_write_bytes : Connection → ℕ
get_buffered_write_bytes c =
    if leb c.app.acked_write_offset c.application_write_offset
    then c.application_write_offset - c.app.acked_write_offset
    else 0

unfoldable pub is_write_acknowledged : Connection → Bool
is_write_acknowledged c =
    if not (c.app.acked_write_offset == c.application_write_offset)
    then false
    else not c.application_fin_requested || c.app.fin_acked

module _ {W : Type 0} (out : Outside W) where
  abbrev pub attached :
      Connection → ℕ → W × Result Error JuiceBinding → W × Connection × Result Error (Unit {0})
  attached c id (w, err e) = (w, c, err e)
  attached c id (w, ok binding) = (
    w,
    queue_operation (record c { binding = binding })
        (record { type = api_start; bytes = []; fin = false; completion = some id }),
    ok tt,
  )

  -- `start` up to its waiting for the completion `id`.
  unfoldable pub start :
      Connection → Option ℕ → Bool → ℕ → ℕ → W → W × Connection × Result Error (Unit {0})
  start c handle aggregate_packets max_datagram_size id w =
      let limited = limit_datagram_size c.binding max_datagram_size in
      let d = record c { aggregate_packets = aggregate_packets; binding = limited } in
      if not (is_some handle)
      then (w, c, err (message "QUIC runtime requires an ICE agent"))
      else if c.started
      then (w, c, err (message "QUIC runtime is already started"))
      else attached d id (attach out limited handle w)

  abbrev detached : Connection → W → W × Connection
  detached c w = let (v, binding) = detach out c.binding w in (v, record c { binding = binding })

  -- `close` up to its waiting; `finish_close` is what it does then.
  unfoldable pub close : Connection → ℕ → W → W × Connection
  close c id w = if c.stopped then detached c w else (
    w,
    queue_operation c (record { type = shutdown; bytes = []; fin = false; completion = some id }),
  )

  unfoldable pub finish_close :
      Connection → Option (Option Error) → W → W × Connection × Result Error (Unit {0})
  finish_close c none w =
      let (v, d) = detached c w in (v, d, err (message "QUIC runtime shutdown timed out"))
  finish_close c (some none) w = let (v, d) = detached c w in (v, d, ok tt)
  finish_close c (some (some e)) w = let (v, d) = detached c w in (v, d, err e)

  -- What `start` does when its waiting ends: by the time-out, with no error, or with one.
  unfoldable pub finish_start :
      Connection → Option (Option Error) → W → W × Connection × Result Error (Unit {0})
  finish_start c none w =
      let (v, d) = detached c w in (v, d, err (message "QUIC runtime start timed out"))
  finish_start c (some none) w = (w, c, ok tt)
  finish_start c (some (some e)) w = let (v, d) = detached c w in (v, d, err e)

-- `waitForChange`, from the connection as it is when the call comes to what it is when it returns.
unfoldable pub wait_for_change : Connection → Connection → Bool
wait_for_change before after = not (before.app.generation == after.app.generation)
