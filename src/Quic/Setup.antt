-- ===== src/Quic/Setup.antt =====
-- initializeTLS, initializeQUIC and ProtocolState::releaseTransport of native/quic/Connection.cpp. The
-- answers of gnutls and ngtcp2 are arguments; `Transport` is what was set up with them. It counts what
-- they allocated and what was freed apart, so that a second free shows.
pub mod Outcome
mod Tests
use ffl_p2p.Prelude.{
  ℕ, ◌+◌, ◌*◌, Bool, true, false, not, Option, none, some, List, String, if◌then◌else◌, Result, ok,
  err,
}
use ffl_p2p.Quic.Library.{Error, message, library, other}

abbrev pub initial_max_data : ℕ
initial_max_data = 64 * 1024 * 1024

abbrev pub initial_max_stream_data : ℕ
initial_max_stream_data = 16 * 1024 * 1024

abbrev pub server_name : String
server_name = "ffl-p2p"

abbrev pub alpn_name : String
alpn_name = "ffl-p2p/1"

abbrev pub tls_priority : String
tls_priority = "%DISABLE_TLS13_COMPAT_MODE:NORMAL:-VERS-ALL:+VERS-TLS1.3"

-- The transport parameters that `initializeQUIC` sets.
pub record Parameters : Type 0 where
  pub max_data : ℕ
  pub max_stream_data : ℕ
  pub max_streams_bidi : ℕ
  pub max_streams_uni : ℕ
  pub original_dcid : Option (List ℕ)

-- The TLS credentials and session, and the ngtcp2 connection. `trusted` is the certificate that the
-- session trusts, `key_pair` the server's certificate and key, `verified` the name that the peer's
-- certificate is checked for.
pub record Transport : Type 0 where
  pub credentials : Bool
  pub tls : Bool
  pub conn : Bool
  pub trusted : Option (List ℕ)
  pub key_pair : Option (List ℕ × List ℕ)
  pub priority : Option String
  pub configured : Bool
  pub with_credentials : Bool
  pub alpn : Option String
  pub alpn_mandatory : Bool
  pub sent_name : Option String
  pub verified : Option String
  pub parameters : Option Parameters
  pub allocated : ℕ
  pub freed : ℕ

abbrev pub new_transport : Transport
new_transport = record {
  credentials = false;
  tls = false;
  conn = false;
  trusted = none;
  key_pair = none;
  priority = none;
  configured = false;
  with_credentials = false;
  alpn = none;
  alpn_mandatory = false;
  sent_name = none;
  verified = none;
  parameters = none;
  allocated = 0;
  freed = 0;
}

-- What each call answers: `none` where it succeeds, and else its code.
pub record Answers : Type 0 where
  pub global_init : Option ℕ
  pub allocate_credentials : Option ℕ
  pub set_key : Option ℕ
  pub set_trust : Option ℕ
  pub init : Option ℕ
  pub priority : Option ℕ
  pub configure : Option ℕ
  pub credentials_set : Option ℕ
  pub alpn : Option ℕ
  pub name : Option ℕ
  pub random : Option ℕ
  pub conn_new : Option ℕ

abbrev pub M : Type 0
M = Transport → Transport × Result Error (Unit {0})

abbrev pub continued : M → Transport × Result Error (Unit {0}) → Transport × Result Error (Unit {0})
continued next (t, ok u) = next t
continued next (t, err e) = (t, err e)

infixl 5 ◌>>◌
abbrev pub ◌>>◌ : M → M → M
◌>>◌ m next t = continued next (m t)

-- A call that the source checks, with what it does to the transport.
abbrev pub call : Option ℕ → Error → (Transport → Transport) → M
call none e change t = (change t, ok tt)
call (some code) e change t = (t, err e)

abbrev pub code_of : Option ℕ → ℕ
code_of none = 0
code_of (some code) = code

abbrev pub check_gnutls : String → Option ℕ → (Transport → Transport) → M
check_gnutls operation answer change =
    call answer (library operation (other (code_of answer))) change

-- The certificate goes to the credentials: the server's own with its key, or the pinned one.
abbrev pub install_key : Answers → List ℕ → Option (List ℕ) → M
install_key a certificate none t = (t, err (message "server private key is missing"))
install_key a certificate (some key) t =
    check_gnutls "gnutls_certificate_set_x509_key_mem" a.set_key
      (λ s. record s { key_pair = some (certificate, key) }) t

abbrev pub install_certificate : Bool → Answers → List ℕ → Option (List ℕ) → M
install_certificate true a certificate key = install_key a certificate key
install_certificate false a certificate key =
    call a.set_trust (message "failed to install pinned QUIC certificate")
      (λ t. record t { trusted = some certificate })

abbrev pub set_name : Bool → Answers → M
set_name true a t = (t, ok tt)
set_name false a t =
    check_gnutls "gnutls_server_name_set" a.name
      (λ s. record s { sent_name = some server_name; verified = some server_name }) t

-- `initializeTLS`
unfoldable pub initialize_tls : Bool → Answers → List ℕ → Option (List ℕ) → M
initialize_tls server a certificate key = do
  check_gnutls "gnutls_global_init" a.global_init (λ t. t)
  check_gnutls "gnutls_certificate_allocate_credentials" a.allocate_credentials
      (λ t. record t { credentials = true; allocated = t.allocated + 1 })
  install_certificate server a certificate key
  check_gnutls "gnutls_init" a.init (λ t. record t { tls = true; allocated = t.allocated + 1 })
  check_gnutls "gnutls_priority_set_direct" a.priority
      (λ t. record t { priority = some tls_priority })
  call a.configure (message "ngtcp2_crypto_gnutls_configure_*_session failed")
      (λ t. record t { configured = true })
  check_gnutls "gnutls_credentials_set" a.credentials_set
      (λ t. record t { with_credentials = true })
  check_gnutls "gnutls_alpn_set_protocols" a.alpn
      (λ t. record t { alpn = some alpn_name; alpn_mandatory = server })
  set_name server a

-- `initializeQUIC`; only the server has an original destination.
unfoldable pub initialize_quic : Bool → Answers → Option (List ℕ) → M
initialize_quic server a original =
    call a.conn_new
      (library (if server then "ngtcp2_conn_server_new" else "ngtcp2_conn_client_new")
        (other (code_of a.conn_new)))
      (λ t. record t {
        conn = true;
        allocated = t.allocated + 1;
        parameters = some (record {
          max_data = initial_max_data;
          max_stream_data = initial_max_stream_data;
          max_streams_bidi = 4;
          max_streams_uni = 2;
          original_dcid = if server then original else none;
        });
      })

-- `generateRandomCID`
abbrev pub random_cid : Answers → M
random_cid a = check_gnutls "gnutls_rnd(cid)" a.random (λ t. t)

-- `initializeClient` and `initializeServer` after their checks.
unfoldable pub set_up_client : Answers → List ℕ → M
unfolding initialize_tls initialize_quic
set_up_client a certificate = do
  initialize_tls false a certificate none
  random_cid a
  initialize_quic false a none

unfoldable pub set_up_server : Answers → List ℕ → List ℕ → List ℕ → M
unfolding initialize_tls initialize_quic
set_up_server a certificate key original = do
  random_cid a
  initialize_tls true a certificate (some key)
  initialize_quic true a (some original)

abbrev pub one : Bool → ℕ
one b = if b then 1 else 0

-- `releaseTransport`
unfoldable pub release_resources : Transport → Transport
release_resources t = record t {
  conn = false;
  tls = false;
  credentials = false;
  freed = t.freed + one t.conn + one t.tls + one t.credentials;
}
