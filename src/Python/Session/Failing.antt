-- ===== src/Python/Session/Failing.antt =====
-- A session of native/Quic.cpp whose connection has failed.
use ffl_p2p.Prelude.{ℕ, ◌≡◌, ap, Bool, Option, some, List, err, ◌∙◌}
use ffl_p2p.Quic.Library.{Error, Outside}
use ffl_p2p.Quic.Connection.{Connection}
use ffl_p2p.Python.Credentials.{runtime_error}
use ffl_p2p.Python.Session.{
  Session, StartArguments, done, required, without_error, require_connection, start_session,
  start_required, queue_on, read_on, queue_session_async, read_session,
}
use ffl_p2p.Python.Session.Questions.{
  check_session_error, wait_for_session, get_peer_finished, get_write_acknowledged, waited,
  answered,
}

require_connection-failed :
    (s : Session) (c : Connection) (e : Error)
    → s.connection ≡ some c
    → c.app.error ≡ some e
    → require_connection s ≡ err (runtime_error e)
unfolding require_connection
require_connection-failed s c e k h = ap required k ∙ ap (without_error c) h

-- Once the connection of a session has an error, start, queueAsync, read, wait, checkError and the
-- attributes all raise this error and leave the session as it is, whatever their arguments are.
pub session_refuses :
    {W : Type 0} (out : Outside W) (s : Session) (c : Connection) (e : Error)
    (start_args : Option StartArguments) (id : ℕ) (w : W) (send_args : Option (List ℕ × Bool))
    (allocated : Bool) (nonnegative : Option Bool) (after : Connection)
    → s.connection ≡ some c
    → c.app.error ≡ some e
    → (start_session out s start_args id w ≡ (w, s, done (err (runtime_error e))))
      × (queue_session_async s send_args ≡ (s, err (runtime_error e)))
      × (read_session s allocated ≡ (s, err (runtime_error e)))
      × (wait_for_session s nonnegative after ≡ err (runtime_error e))
      × (check_session_error s ≡ err (runtime_error e))
      × (get_peer_finished s ≡ err (runtime_error e))
      × (get_write_acknowledged s ≡ err (runtime_error e))
unfolding start_session queue_session_async read_session wait_for_session check_session_error
    get_peer_finished get_write_acknowledged
session_refuses out s c e start_args id w send_args allocated nonnegative after k h =
    let failed = require_connection-failed s c e k h in
    (
      ap (λ r. start_required out s r start_args id w) failed,
      ap (λ r. queue_on s r send_args) failed,
      ap (λ r. read_on s r allocated) failed,
      ap (waited nonnegative after) failed,
      ap (answered (λ x. tt)) failed,
      ap (answered (λ x. x.app.peer_finished)) failed,
      ap (answered _) failed,
    )
