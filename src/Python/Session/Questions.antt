-- ===== src/Python/Session/Questions.antt =====
-- The questions that Python asks a session of native/Quic.cpp: wait, checkError and the attributes.
use ffl_p2p.Prelude.{ℕ, Bool, true, Option, none, some, Result, ok, err}
use ffl_p2p.Quic.Connection.{Connection}
use ffl_p2p.Quic.Connection.Application.{
  has_pending_write, get_buffered_write_bytes, is_write_acknowledged, wait_for_change,
}
use ffl_p2p.Python.Credentials.{PyError, value_error, raised}
use ffl_p2p.Python.Session.{Session, require_connection}

-- What follows `requireConnection` in each of them.
abbrev pub answered : {A : Type 0} → (Connection → A) → Result PyError Connection → Result PyError A
answered f (err e) = err e
answered f (ok c) = ok (f c)

-- `waitForSession`: the time-out's sign is `none` where the arguments could not be parsed, and
-- `after` is the connection when the waiting ends.
abbrev pub waited : Option Bool → Connection → Result PyError Connection → Result PyError Bool
waited nonnegative after (err e) = err e
waited none after (ok c) = err raised
waited (some true) after (ok c) = ok (wait_for_change c after)
waited (some _) after (ok c) = err (value_error "timeout must be >= 0")

unfoldable pub wait_for_session : Session → Option Bool → Connection → Result PyError Bool
wait_for_session s nonnegative after = waited nonnegative after (require_connection s)

-- `checkSessionError` asks for the error a second time.
unfoldable pub check_session_error : Session → Result PyError (Unit {0})
check_session_error s = answered (λ c. tt) (require_connection s)

unfoldable pub get_handshake_complete : Session → Result PyError Bool
get_handshake_complete s = answered (λ c. c.app.handshake_complete) (require_connection s)

unfoldable pub get_handshake_confirmed : Session → Result PyError Bool
get_handshake_confirmed s = answered (λ c. c.app.handshake_confirmed) (require_connection s)

unfoldable pub get_peer_finished : Session → Result PyError Bool
get_peer_finished s = answered (λ c. c.app.peer_finished) (require_connection s)

unfoldable pub get_pending_write : Session → Result PyError Bool
get_pending_write s = answered has_pending_write (require_connection s)

unfoldable pub get_buffered_bytes : Session → Result PyError ℕ
get_buffered_bytes s = answered get_buffered_write_bytes (require_connection s)

unfoldable pub get_write_acknowledged : Session → Result PyError Bool
get_write_acknowledged s = answered is_write_acknowledged (require_connection s)

unfoldable pub get_stream_closed : Session → Result PyError Bool
get_stream_closed s = answered (λ c. c.app.stream_closed) (require_connection s)

unfoldable pub get_too_large_send_drops : Session → Result PyError ℕ
get_too_large_send_drops s = answered (λ c. c.too_large_send_drops) (require_connection s)
