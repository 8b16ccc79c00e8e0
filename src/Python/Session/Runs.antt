-- ===== src/Python/Session/Runs.antt =====
-- The life of a session of native/Quic.cpp: its calls come one after the other, and while one waits,
-- or between two of them, the worker and the agent change the connection.
pub mod References
pub mod Overlong
use ffl_p2p.Prelude.{ℕ, ◌≡◌, Bool, Option, none, some, List, Result}
use ffl_p2p.Quic.Library.{Error, Outside}
use ffl_p2p.Quic.Connection.{Connection}
use ffl_p2p.Python.Credentials.{PyError}
use ffl_p2p.Python.Session.{
  Session, InitArguments, StartArguments, Call, done, waiting, with_connection, initialize_session,
  start_session, finish_start_session, close_session, finish_close_session, deallocate_session,
  queue_session_async, read_session,
}

-- Whether a call waits; `starting` holds its own reference to the agent.
pub data Phase : Type 0 where
  ready : Phase
  starting : ℕ → Phase
  closing : Phase

pub record Machine (W : Type 0) : Type 0 where
  pub session : Session
  pub phase : Phase
  pub outside : W

abbrev pub phase_of : Call → Phase
phase_of (done r) = ready
phase_of (waiting (some handle)) = starting handle
phase_of (waiting none) = closing

abbrev pub called : {W : Type 0} → W × Session × Call → Machine W
called (w, s, call) = record { session = s; phase = phase_of call; outside = w }

abbrev pub returned : {W A : Type 0} → W × Session × A → Machine W
returned (w, s, r) = record { session = s; phase = ready; outside = w }

module _ {W : Type 0} (out : Outside W) where
  -- No other thread attaches or detaches the connection.
  pub data Step (m : Machine W) : Machine W → Type 0 where
    initializes :
        (args : Option InitArguments) (assigned : Result Error ℕ)
        → m.phase ≡ ready
        → Step m (record m { session = (initialize_session m.session args assigned).0 })
    starts :
        (args : Option StartArguments) (id : ℕ)
        → m.phase ≡ ready
        → Step m (called (start_session out m.session args id m.outside))
    started :
        (c : Connection) (handle : ℕ) (outcome : Option (Option Error))
        → m.phase ≡ starting handle
        → m.session.connection ≡ some c
        → Step m (returned (finish_start_session out m.session c handle outcome m.outside))
    queues :
        (args : Option (List ℕ × Bool))
        → m.phase ≡ ready
        → Step m (record m { session = (queue_session_async m.session args).0 })
    reads :
        (allocated : Bool)
        → m.phase ≡ ready
        → Step m (record m { session = (read_session m.session allocated).0 })
    closes : (id : ℕ) → m.phase ≡ ready → Step m (called (close_session out m.session id m.outside))
    closed :
        (c : Connection) (outcome : Option (Option Error))
        → m.phase ≡ closing
        → m.session.connection ≡ some c
        → Step m (returned (finish_close_session out m.session c outcome m.outside))
    others :
        (c d : Connection) (w : W)
        → m.session.connection ≡ some c
        → d.binding ≡ c.binding
        → Step m (record m { session = with_connection m.session d; outside = w })

  pub data Reach (m : Machine W) : Machine W → Type 0 where
    here : Reach m m
    next : {n o : Machine W} → Reach m n → Step n o → Reach m o
