-- ===== src/Quic/Connection.antt =====
-- Connection of native/quic/Connection.h: its state, and the small methods that only change it.
-- The fields' names are those of the source. A connection's place in its worker's deque is modelled
-- in Quic.Schedule; here `queue_operation` only enters the operation. Completions are numbers, and
-- `completions` says which are completed and with which error.
pub mod Application
pub mod Creation
pub mod Receive
pub mod Callbacks
pub mod Transport
pub mod Flush
pub mod Operations
mod Sample
mod Tests
use ffl_p2p.Prelude.{
  ℕ, ◌+◌, ◌-◌, Bool, true, false, not, ◌&&◌, ◌||◌, Option, none, some, List, [], ◌∷◌, ◌++◌, String,
  length, drop, ltb, ◌==◌, if◌then◌else◌, is_some,
}
use ffl_p2p.Quic.Library.{Error, message, infinite_timestamp}
use ffl_p2p.Quic.Protocol.{ProtocolState, add64}
use ffl_p2p.Ice.Binding.{JuiceBinding}
use ffl_p2p.Datapath.Batch.{ReceiveBatch, StreamReceiveBatch}

pub data Role : Type 0 where
  client server : Role

pub data OperationType : Type 0 where
  api_start api_send flush_recv flush_stream_recv flush_send timer_expired shutdown : OperationType
  release_stream_recv_credit : OperationType

pub record Operation : Type 0 where
  pub type : OperationType
  pub bytes : List ℕ
  pub fin : Bool
  pub completion : Option ℕ

abbrev pub internal_operation : OperationType → Operation
internal_operation t = record { type = t; bytes = []; fin = false; completion = none }

pub record PendingSend : Type 0 where
  pub bytes : List ℕ
  pub offset : ℕ
  pub segment_size : ℕ
  pub packet_count : ℕ
  pub logical_bytes : ℕ
  pub aggregate : Bool

abbrev pub cleared : PendingSend
cleared = record {
  bytes = [];
  offset = 0;
  segment_size = 0;
  packet_count = 0;
  logical_bytes = 0;
  aggregate = false;
}

abbrev pub has_remaining_data : PendingSend → Bool
has_remaining_data s = ltb s.offset (length s.bytes)

abbrev pub remaining_data : PendingSend → List ℕ
remaining_data s = drop s.offset s.bytes

-- What the application sees, under appMutex_.
pub record AppState : Type 0 where
  pub generation : ℕ
  pub receive_batch : StreamReceiveBatch
  pub error : Option Error
  pub handshake_complete : Bool
  pub handshake_confirmed : Bool
  pub peer_finished : Bool
  pub submitted_write_offset : ℕ
  pub acked_write_offset : ℕ
  pub fin_submitted : Bool
  pub fin_acked : Bool
  pub stream_closed : Bool

pub record Connection : Type 0 where
  pub role : Role
  pub certificate : List ℕ
  pub private_key : List ℕ
  pub protocol : ProtocolState
  pub operations : List Operation
  pub completions : ℕ → Option (Option Error)
  pub stopped : Bool
  pub started : Bool
  pub aggregate_packets : Bool
  pub too_large_send_drops : ℕ
  pub binding : JuiceBinding
  pub receive_batch : ReceiveBatch
  pub stream_receive_batch : StreamReceiveBatch
  pub receive_operation_pending : Bool
  pub stream_receive_operation_pending : Bool
  pub peer_finished_pending : Bool
  pub releasable_stream_receive_bytes : ℕ
  pub send_operation_pending : Bool
  pub pending_send : PendingSend
  pub send_retry_expiry : ℕ
  pub app : AppState
  pub application_write_offset : ℕ
  pub application_fin_requested : Bool

-- `Completion::complete`: the first call decides.
unfoldable pub complete : Connection → Option ℕ → Option Error → Connection
complete c none error = c
complete c (some id) error = record c {
  completions =
      λ j. if j == id && not (is_some (c.completions id)) then some error else c.completions j;
}

abbrev pub is_shutdown : OperationType → Bool
is_shutdown shutdown = true
is_shutdown _ = false

unfoldable pub queue_operation : Connection → Operation → Connection
queue_operation c o =
    if c.stopped && not (is_shutdown o.type)
    then complete c o.completion (some (message "QUIC runtime is stopped"))
    else record c { operations = c.operations ++ o ∷ [] }

unfoldable pub queue_internal_operation : Connection → OperationType → Connection
unfolding queue_operation
queue_internal_operation c t = queue_operation c (internal_operation t)

unfoldable pub queue_stream_receive_flush : Connection → Connection
unfolding queue_internal_operation
queue_stream_receive_flush c =
    if c.stream_receive_operation_pending
    then c
    else queue_internal_operation (record c { stream_receive_operation_pending = true })
        flush_stream_recv

unfoldable pub queue_send_flush : Connection → Connection
unfolding queue_internal_operation
queue_send_flush c =
    if c.send_operation_pending
    then c
    else queue_internal_operation (record c { send_operation_pending = true }) flush_send

unfoldable pub notify_application : Connection → Connection
notify_application c = record c { app = record (c.app) { generation = add64 c.app.generation 1 } }

-- The first error stays.
unfoldable pub set_error : Connection → Error → Connection
set_error c e = record c {
  app = record (c.app) {
    error = if is_some c.app.error then c.app.error else some e;
    generation = add64 c.app.generation 1;
  };
}

unfoldable pub drain_failed_operations : List Operation → Connection → Error → Connection
drain_failed_operations [] c e = record c { operations = [] }
drain_failed_operations (o ∷ os) c e =
    drain_failed_operations os (complete c o.completion (some e)) e

-- `publishApplicationState`: without an ngtcp2 connection everything reads as nothing.
unfoldable pub publish_application_state : Connection → Connection
publish_application_state c = record c {
  app = record (c.app) {
    submitted_write_offset = if p.conn then p.tx_submitted_offset else 0;
    acked_write_offset = if p.conn then p.tx_acked_offset else 0;
    fin_submitted = p.conn && p.tx_fin_submitted;
    fin_acked = p.conn && p.tx_fin_acked;
    handshake_complete = p.conn && p.handshake_complete;
    handshake_confirmed = p.conn && p.handshake_confirmed;
    stream_closed = p.conn && p.stream_closed;
    generation = add64 c.app.generation 1;
  };
}
  where
    p : ProtocolState
    p = c.protocol
