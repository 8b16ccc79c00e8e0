-- ===== src/Python/Credentials.antt =====
-- QUICCredentials of native/Quic.cpp, and the exceptions that a call leaves for Python.
use ffl_p2p.Prelude.{Option, none, some, List, ℕ, String, Result, ok, err}
use ffl_p2p.Quic.Library.{Error, message}
use ffl_p2p.Quic.Credentials.{Credentials}
use ffl_p2p.Datapath.Buffer.{Fault}

-- `buffer_error` is a RuntimeError with the text of a buffer's exception, and `raised` is what the
-- interpreter has set itself.
pub data PyError : Type 0 where
  runtime_error : Error → PyError
  buffer_error : Fault → PyError
  value_error : String → PyError
  raised : PyError

pub record PyCredentials : Type 0 where
  pub state : Option Credentials

-- With what `generateCredentials` returns or throws.
unfoldable pub initialize_credentials :
    PyCredentials → Result Error Credentials → PyCredentials × Result PyError (Unit {0})
initialize_credentials self (ok credentials) = (record { state = some credentials }, ok tt)
initialize_credentials self (err e) = (self, err (runtime_error e))

unfoldable pub deallocate_credentials : PyCredentials → PyCredentials
deallocate_credentials self = record { state = none }

-- With PyUnicode_DecodeUTF8.
unfoldable pub certificate_of :
    (List ℕ → Result PyError String) → Option Credentials → Result PyError String
certificate_of decode none = err (runtime_error (message "QUIC credentials are closed"))
certificate_of decode (some credentials) = decode credentials.certificate_pem

unfoldable pub get_certificate :
    (List ℕ → Result PyError String) → PyCredentials → Result PyError String
unfolding certificate_of
get_certificate decode self = certificate_of decode self.state
