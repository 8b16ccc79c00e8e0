-- ===== src/Python/Session.antt =====
-- QUICSession of native/Quic.cpp: each method with its guards. The arguments come as Python parsed
-- them, `none` where it could not. An agent object is its handle. A time-out shows only by its sign.
-- Where a call waits for the worker it is two functions, before and after the waiting.
pub mod Bindings
pub mod Questions
pub mod Runs
pub mod Keeping
pub mod Failing
use text.Mathlib.Text as Text
use ffl_p2p.Prelude.{
  ℕ, Bool, true, false, not, Option, none, some, List, String, if◌then◌else◌, is_empty, Result, ok,
  err,
}
use ffl_p2p.Quic.Library.{Error, message, Outside}
use ffl_p2p.Quic.Credentials.{Credentials}
use ffl_p2p.Datapath.Buffer.{Fault}
use ffl_p2p.Datapath.Batch.{StreamReceiveBatch, copy_to}
use ffl_p2p.Quic.Connection.{Connection}
use ffl_p2p.Quic.Connection.Creation.{create_client, create_server}
use ffl_p2p.Quic.Connection.Application.{
  start, finish_start, close, finish_close, create_send_operation, wait_for_change,
}
use ffl_p2p.Quic.Connection.Receive.{queue_receive, take_received_stream_data}
use ffl_p2p.Python.Credentials.{
  PyError, runtime_error, buffer_error, value_error, raised, PyCredentials,
}

pub record Session : Type 0 where
  pub connection : Option Connection
  pub agent_object : Option ℕ
  pub initial_packet : Option (List ℕ)
  pub started : Bool

-- As `createObject` gives it: the type's memory is zero.
abbrev pub new_session : Session
new_session = record {
  connection = none;
  agent_object = none;
  initial_packet = none;
  started = false;
}

-- `requireConnection`
abbrev pub without_error : Connection → Option Error → Result PyError Connection
without_error c none = ok c
without_error c (some e) = err (runtime_error e)

abbrev pub required : Option Connection → Result PyError Connection
required none = err (runtime_error (message "QUIC session is closed"))
required (some c) = without_error c c.app.error

unfoldable pub require_connection : Session → Result PyError Connection
require_connection s = required s.connection

-- `credentials` is `none` where the object is no QUICCredentials.
pub record InitArguments : Type 0 where
  pub role : String
  pub certificate : Option (List ℕ)
  pub credentials : Option PyCredentials
  pub initial_packet : Option (List ℕ)

-- The worker that the connection is assigned to, or why there is none.
abbrev pub client_on : List ℕ → Result Error ℕ → Result Error Connection
client_on certificate (ok worker) = ok (create_client certificate worker)
client_on certificate (err e) = err e

abbrev pub new_client : Option (List ℕ) → Result Error ℕ → Result Error Connection
new_client none assigned = err (message "client requires the pinned QUIC certificate")
new_client (some certificate) assigned =
    if is_empty certificate
    then err (message "client requires the pinned QUIC certificate")
    else client_on certificate assigned

abbrev pub server_on : Credentials → Result Error ℕ → Result Error Connection
server_on credentials (ok worker) =
    ok (create_server credentials.certificate_pem credentials.private_key_pem worker)
server_on credentials (err e) = err e

abbrev pub server_with : Option Credentials → Result Error ℕ → Result Error Connection
server_with none assigned = err (message "QUIC credentials are closed")
server_with (some credentials) assigned = server_on credentials assigned

abbrev pub new_server : Option PyCredentials → Result Error ℕ → Result Error Connection
new_server none assigned = err (message "server requires QUICCredentials")
new_server (some credentials) assigned = server_with credentials.state assigned

unfoldable pub create_connection : InitArguments → Result Error ℕ → Result Error Connection
create_connection args assigned =
    if Text.◌==◌ args.role "client"
    then new_client args.certificate assigned
    else if Text.◌==◌ args.role "server"
    then new_server args.credentials assigned
    else err (message "role must be 'client' or 'server'")

abbrev pub filled : Option (List ℕ) → Option (List ℕ)
filled none = none
filled (some bytes) = if is_empty bytes then none else some bytes

abbrev pub initialized :
    Session → InitArguments → Result Error Connection → Session × Result PyError (Unit {0})
initialized s args (err e) = (s, err (runtime_error e))
initialized s args (ok c) = (
  record {
    connection = some c;
    agent_object = none;
    initial_packet = filled args.initial_packet;
    started = false;
  },
  ok tt,
)

unfoldable pub initialize_session :
    Session → Option InitArguments → Result Error ℕ → Session × Result PyError (Unit {0})
initialize_session s none assigned = (s, err raised)
initialize_session s (some args) assigned = initialized s args (create_connection args assigned)

-- `agent` is `none` where the object is no agent, `max_datagram_size` where it is negative.
pub record StartArguments : Type 0 where
  pub agent : Option ℕ
  pub aggregate : Bool
  pub positive_timeout : Bool
  pub max_datagram_size : Option ℕ

-- A call is over, or waits with a reference to the agent.
pub data Call : Type 0 where
  done : Result PyError (Unit {0}) → Call
  waiting : Option ℕ → Call

abbrev pub with_connection : Session → Connection → Session
with_connection s c = record s { connection = some c }

module _ {W : Type 0} (out : Outside W) where
  abbrev pub begun : Session → ℕ → W × Connection × Result Error (Unit {0}) → W × Session × Call
  begun s handle (w, c, ok u) = (w, with_connection s c, waiting (some handle))
  begun s handle (w, c, err e) = (w, with_connection s c, done (err (runtime_error e)))

  abbrev pub start_on : Session → Connection → Option ℕ → Bool → ℕ → ℕ → W → W × Session × Call
  start_on s c none aggregate limit id w = (w, s, done (err raised))
  start_on s c (some handle) aggregate limit id w =
      begun s handle (start out c (some handle) aggregate limit id w)

  abbrev pub start_limited :
      Session → Connection → StartArguments → Option ℕ → ℕ → W → W × Session × Call
  start_limited s c args none id w =
      (w, s, done (err (value_error "maxDatagramSize must not be negative")))
  start_limited s c args (some limit) id w =
      if not args.positive_timeout
      then (w, s, done (err (value_error "timeout must be positive")))
      else if s.started
      then (w, s, done (err (runtime_error (message "QUIC runtime is already started"))))
      else start_on s c args.agent args.aggregate limit id w

  abbrev pub start_required :
      Session → Result PyError Connection → Option StartArguments → ℕ → W → W × Session × Call
  start_required s (err e) args id w = (w, s, done (err e))
  start_required s (ok c) none id w = (w, s, done (err raised))
  start_required s (ok c) (some args) id w = start_limited s c args args.max_datagram_size id w

  -- `startSession` up to its waiting for the completion `id`.
  unfoldable pub start_session : Session → Option StartArguments → ℕ → W → W × Session × Call
  start_session s args id w = start_required s (require_connection s) args id w

  abbrev pub packet_queued :
      Session
      → ℕ
      → W
      → Connection × Result Fault (Unit {0})
      → W × Session × Result PyError (Unit {0})
  packet_queued s handle w (c, err fault) = (w, with_connection s c, err (buffer_error fault))
  packet_queued s handle w (c, ok u) = (
    w,
    record {
      connection = some c;
      agent_object = some handle;
      initial_packet = none;
      started = true;
    },
    ok tt,
  )

  abbrev pub runs :
      Session
      → ℕ
      → W × Connection × Result Error (Unit {0})
      → W × Session × Result PyError (Unit {0})
  runs s handle (w, c, err e) = (w, with_connection s c, err (runtime_error e))
  runs s handle (w, c, ok u) = packet_queued s handle w (queue_receive c s.initial_packet)

  -- `startSession` from the end of its waiting on.
  unfoldable pub finish_start_session :
      Session → Connection → ℕ → Option (Option Error) → W → W × Session × Result PyError (Unit {0})
  finish_start_session s c handle outcome w = runs s handle (finish_start out c outcome w)

  abbrev pub let_go : Session → Connection → Session
  let_go s c = record s { connection = some c; agent_object = none; started = false }

  abbrev pub close_on : Session → Option Connection → ℕ → W → W × Session × Call
  close_on s none id w = (w, s, done (ok tt))
  close_on s (some c) id w =
      let (v, d) = close out c id w in
      if c.stopped then (v, let_go s d, done (ok tt)) else (v, with_connection s d, waiting none)

  -- `closeSession` up to its waiting, and from its end on.
  unfoldable pub close_session : Session → ℕ → W → W × Session × Call
  close_session s id w = close_on s s.connection id w

  abbrev pub as_runtime_error : Result Error (Unit {0}) → Result PyError (Unit {0})
  as_runtime_error (ok u) = ok tt
  as_runtime_error (err e) = err (runtime_error e)

  unfoldable pub finish_close_session :
      Session → Connection → Option (Option Error) → W → W × Session × Result PyError (Unit {0})
  finish_close_session s c outcome w =
      let (v, d, r) = finish_close out c outcome w in (v, let_go s d, as_runtime_error r)

  -- `deallocateSession` after `closeSessionNoThrow`.
  unfoldable pub deallocate_session : Session → Session
  deallocate_session s = record s { connection = none; agent_object = none; initial_packet = none }

-- `queueSessionAsync`
abbrev pub queued :
    Session → Connection × Result Error (Unit {0}) → Session × Result PyError (Unit {0})
queued s (c, ok u) = (with_connection s c, ok tt)
queued s (c, err e) = (with_connection s c, err (runtime_error e))

abbrev pub queue_on :
    Session
    → Result PyError Connection
    → Option (List ℕ × Bool)
    → Session × Result PyError (Unit {0})
queue_on s (err e) args = (s, err e)
queue_on s (ok c) none = (s, err raised)
queue_on s (ok c) (some (bytes, fin)) = queued s (create_send_operation c (some bytes) fin)

unfoldable pub queue_session_async :
    Session → Option (List ℕ × Bool) → Session × Result PyError (Unit {0})
queue_session_async s args = queue_on s (require_connection s) args

-- `readSession`: whether Python could allocate the object is an argument.
abbrev pub copied : Result Fault (List ℕ) → Result PyError (List ℕ)
copied (ok bytes) = ok bytes
copied (err fault) = err (buffer_error fault)

abbrev pub read_batch :
    Session → Bool → StreamReceiveBatch × Connection → Session × Result PyError (List ℕ)
read_batch s false (batch, c) = (with_connection s c, err raised)
read_batch s true (batch, c) = (with_connection s c, copied (copy_to batch true batch.byte_count))

abbrev pub read_on : Session → Result PyError Connection → Bool → Session × Result PyError (List ℕ)
read_on s (err e) allocated = (s, err e)
read_on s (ok c) allocated = read_batch s allocated (take_received_stream_data c)

unfoldable pub read_session : Session → Bool → Session × Result PyError (List ℕ)
read_session s allocated = read_on s (require_connection s) allocated
