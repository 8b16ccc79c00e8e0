-- ===== src/Quic/Connection/Receive/Passing.antt =====
-- What ngtcp2 calls back while it reads a packet, and operations beside it, on the way of received
-- bytes (native/quic/Connection.cpp).
use ffl_p2p.Prelude.{
  ℕ, ◌+◌, ◌^◌, ◌<◌, ◌≡◌, refl, Bool, true, false, Option, none, some, List, [], ◌∷◌, length, arith,
  ◌++◌, if_cases, ◌||◌, is_empty, Result, ok, err,
}
use ffl_p2p.Quic.Library.{Outside, Event, stream_data}
use ffl_p2p.Quic.Connection.{
  Connection, complete, queue_internal_operation, publish_application_state,
}
use ffl_p2p.Quic.Connection.Receive.{queue_receive, received}
use ffl_p2p.Quic.Connection.Receive.Runs.{Leaves, Shown, ReceiveRun}
use ffl_p2p.Datapath.Buffer.{Fault}
use ffl_p2p.Datapath.Batch.{ReceiveBatch, append_receive}
use ffl_p2p.Quic.Connection.Callbacks.{run_event, run_events}

pub publish_application_state-Leaves : (c : Connection) → Leaves c (publish_application_state c)
unfolding publish_application_state
publish_application_state-Leaves c = ground arith

received-Leaves :
    (c : Connection) (r : ReceiveBatch × Result Fault (Unit {0})) → Leaves c (received c r).0
unfolding queue_internal_operation complete
received-Leaves c (batch, err e) = record {
  app = refl;
  worker = refl;
  offset = refl;
  releasable = refl;
  pending = refl;
}
received-Leaves c (batch, ok u) = ground arith

pub queue_receive-Leaves :
    (c : Connection) (bytes : Option (List ℕ)) → Leaves c (queue_receive c bytes).0
unfolding queue_receive
queue_receive-Leaves c none = record {
  app = refl;
  worker = refl;
  offset = refl;
  releasable = refl;
  pending = refl;
}
queue_receive-Leaves c (some bytes) =
    if_cases (λ (r : Connection × Result Fault (Unit {0})). Leaves c r.0)
      (is_empty bytes || c.stopped)
      (λ h. record { app = refl; worker = refl; offset = refl; releasable = refl; pending = refl })
      (λ h. received-Leaves c (append_receive c.receive_batch (some bytes)))

-- QUIC's stream offsets stay below 2 ^ 62.
abbrev pub IsSmall : Event → Type 0
IsSmall (stream_data fin stream offset bytes) = offset + length bytes < 2 ^ 64
IsSmall _ = Unit {0}

pub data AllSmall : List Event → Type 0 where
  nil : AllSmall []
  cons : {e : Event} {es : List Event} → IsSmall e → AllSmall es → AllSmall (e ∷ es)

-- The bytes that a callback brings, and those of several.
abbrev pub event_bytes : Event → List ℕ
event_bytes (stream_data fin stream offset bytes) = bytes
event_bytes _ = []

abbrev pub stream_bytes : List Event → List ℕ
stream_bytes [] = []
stream_bytes (e ∷ es) = event_bytes e ++ stream_bytes es

-- The first of `rest` is the callback that failed.
abbrev pub Refused : Connection → List Event → List Event → Connection → Type 0
Refused c ran rest d =
    (m : Connection) × (e : Event) × (later : List Event) × (rest ≡ e ∷ later)
    × (run_events c ran ≡ (m, true))
    × (run_event m e ≡ (d, false))

-- How the callbacks `es` end: all ran, or `ran` and one that failed, and `rest` did not.
abbrev pub Ended : Connection → List Event → List Event → Connection × Bool → Type 0
Ended c ran rest (d, true) = (rest ≡ []) × (run_events c ran ≡ (d, true))
Ended c ran rest (d, false) = Refused c ran rest d

module _ {W : Type 0} (out : Outside W) where
  abbrev arriving : Shown → List ℕ → Shown
  arriving x bytes = record x { arrived = x.arrived ++ bytes }

  abbrev Course : Connection → Connection → Shown → List Event → Connection × Bool → Type 0
  Course a c x es r =
      (ran rest : List Event) × (es ≡ ran ++ rest)
      × Ended c ran rest r
      × ReceiveRun out a (arriving x (stream_bytes ran)) r.0
