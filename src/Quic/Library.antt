-- ===== src/Quic/Library.antt =====
-- What native/quic and native/ice say to the outside and hear back from it: ngtcp2, the ICE agent
-- and the clock. None of it is modelled: `W` stands for its state, and each call is a field of
-- `Outside`, a parameter of the definitions that make it.
pub mod Sample
use ffl_p2p.Prelude.{ℕ, ◌^◌, ◌-◌, Bool, Option, List, String, Result}

abbrev pub infinite_timestamp : ℕ
infinite_timestamp = 2 ^ 64 - 1

-- The negative results of ngtcp2 that the source tells apart.
pub data Code : Type 0 where
  stream_data_blocked stream_shut_wr stream_id_blocked idle_close callback_failure : Code
  other : ℕ → Code

-- The results of libjuice that the source tells apart.
pub data JuiceCode : Type 0 where
  success again too_large : JuiceCode
  failure : ℕ → JuiceCode

-- `std::runtime_error` and its relatives: a text, a text after the operation's name, and the texts
-- that end with a library's code.
pub data Error : Type 0 where
  message : String → Error
  about : String → String → Error
  library : String → Code → Error
  juice : String → JuiceCode → Error

-- The arguments of `ngtcp2_conn_write_stream` that the source computes.
pub record StreamWrite : Type 0 where
  pub stream : ℕ
  pub bytes : List ℕ
  pub fin : Bool
  pub padding : Bool

-- A packet writer's result: the packet that it put into the output (empty for 0), or a code.
pub data Written : Type 0 where
  wrote : List ℕ → Written
  failed : Code → Written

-- `accepted` is `none` where ngtcp2 leaves -1.
pub record StreamReply : Type 0 where
  pub written : Written
  pub accepted : Option ℕ

-- What ngtcp2 calls back while it reads a packet. `fin` is NGTCP2_STREAM_DATA_FLAG_FIN, and
-- `app_error` is NGTCP2_STREAM_CLOSE_FLAG_APP_ERROR_CODE_SET.
pub data Event : Type 0 where
  handshake_completed handshake_confirmed : Event
  stream_data : (fin : Bool) (stream offset : ℕ) (bytes : List ℕ) → Event
  acked_stream_data : (stream offset size : ℕ) → Event
  stream_close : (app_error : Bool) (stream : ℕ) → Event

pub record VersionCid : Type 0 where
  pub version : ℕ
  pub dcid : List ℕ
  pub scid : List ℕ

pub record Outside (W : Type 0) : Type 0 where
  -- platform::getCurrentTimestampNS
  pub now : W → W × ℕ
  -- sendFFLP2PAgentNative, and sendFFLP2PAgentNativeAggregateProgress with its progress
  pub agent_send : List ℕ → W → W × JuiceCode
  pub agent_send_aggregate : List ℕ → ℕ → W → W × JuiceCode × ℕ
  -- setFFLP2PAgentNativeDataSink: whether it returns 0; clearFFLP2PAgentNativeDataSink
  pub set_sink : ℕ → W → W × Bool
  pub clear_sink : ℕ → W → W
  -- ngtcp2
  pub update_tx_time : ℕ → W → W
  pub write_stream : StreamWrite → W → W × StreamReply
  pub write_pkt : W → W × Written
  pub get_expiry : W → ℕ
  pub handle_expiry : ℕ → W → W × Option Code
  pub read_pkt : List ℕ → W → W × List Event × Option Code
  pub open_stream : W → W × Result Code ℕ
  pub extend_max_stream_offset : ℕ → ℕ → W → W × Bool
  pub extend_max_offset : ℕ → W → W
  -- gnutls and the creation of the ngtcp2 connection: `none`, or what is thrown. The server's takes
  -- the certificate, the key, the original destination and the peer's connection identifiers.
  pub initialize_client : List ℕ → W → W × Option Error
  pub initialize_server : List ℕ → List ℕ → List ℕ → List ℕ → W → W × Option Error
  -- ngtcp2_pkt_decode_version_cid, `none` where it does not return 0
  pub decode_version_cid : List ℕ → Option VersionCid
