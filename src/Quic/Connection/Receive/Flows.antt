-- ===== src/Quic/Connection/Receive/Flows.antt =====
-- Where received bytes are: the invariant of their way to the application, and what keeps it.
use ffl_p2p.Prelude.{
  ℕ, ◌+◌, ◌^◌, ◌<◌, ◌≡◌, sym, ap, ◌∙◌, Bool, true, false, List, [], ◌∷◌, ◌++◌, append-nil,
  append_assoc, arith, length, length-append,
}
use ffl_p2p.Quic.Protocol.{add64}
use ffl_p2p.Quic.Connection.{
  Connection, OperationType, complete, queue_internal_operation, queue_stream_receive_flush,
  queue_send_flush,
}
use ffl_p2p.Datapath.Batch.{StreamReceiveBatch, empty_stream_batch, append_bytes}
use ffl_p2p.Datapath.Batch.Stream
use ffl_p2p.Datapath.Batch.Stream.{contents, append_bytes-contents, append_batch-contents}
use ffl_p2p.Quic.Connection.Receive.{append_received_stream_data, appended}

-- `received` is all that came from the peer, `taken` what the application has taken of it, and
-- `granted` the credit that went back to the peer. `app` and `worker` are the two batches, and
-- `pending` says that the operation which moves the second behind the first is queued.
pub record Flows (received taken : List ℕ) (granted : ℕ) (app worker : StreamReceiveBatch)
    (rx_offset releasable : ℕ) (pending : Bool) : Type 0 where
  pub order : taken ++ (contents app ++ contents worker) ≡ received
  pub offset : rx_offset ≡ length received
  pub credit : granted + releasable ≡ length taken
  pub small : length received < 2 ^ 64
  pub app_valid : Stream.IsValid app
  pub worker_valid : Stream.IsValid worker
  pub pools : app.pool ≡ worker.pool
  pub noticed : pending ≡ false → contents worker ≡ []

abbrev pub Delivers : List ℕ → List ℕ → ℕ → Connection → Type 0
Delivers received taken granted c =
    Flows received taken granted c.app.receive_batch c.stream_receive_batch c.protocol.rx_offset
      c.releasable_stream_receive_bytes c.stream_receive_operation_pending

-- What queueing an operation leaves alone.
pub record Same (c d : Connection) : Type 0 where
  pub app : d.app ≡ c.app
  pub protocol : d.protocol ≡ c.protocol
  pub batch : d.stream_receive_batch ≡ c.stream_receive_batch
  pub releasable : d.releasable_stream_receive_bytes ≡ c.releasable_stream_receive_bytes
  pub pending : d.stream_receive_operation_pending ≡ c.stream_receive_operation_pending

pub queue_internal_operation-Same :
    (c : Connection) (t : OperationType) → Same c (queue_internal_operation c t)
unfolding queue_internal_operation complete
queue_internal_operation-Same c t = ground arith

pub queue_send_flush-Same : (c : Connection) → Same c (queue_send_flush c)
unfolding queue_send_flush complete
queue_send_flush-Same c = ground arith

pub Same-Delivers :
    (received taken : List ℕ) (granted : ℕ) (c d : Connection)
    → Same c d
    → Delivers received taken granted c
    → Delivers received taken granted d
Same-Delivers received taken granted c d s v =
    rw (s.app, s.protocol, s.batch, s.releasable, s.pending) v

-- `queueStreamReceiveFlush` leaves the operation queued.
pub queue_stream_receive_flush_lem :
    (c : Connection)
    → let d = queue_stream_receive_flush c in
      (d.app ≡ c.app)
      × (d.protocol ≡ c.protocol)
      × (d.stream_receive_batch ≡ c.stream_receive_batch)
      × (d.releasable_stream_receive_bytes ≡ c.releasable_stream_receive_bytes)
      × (d.stream_receive_operation_pending ≡ true)
unfolding queue_stream_receive_flush complete
queue_stream_receive_flush_lem c = ground arith

pub appended_lem :
    (a b : StreamReceiveBatch)
    → Stream.IsValid a
    → Stream.IsValid b
    → a.pool ≡ b.pool
    → Stream.IsValid (appended a b)
      × (contents (appended a b) ≡ contents a ++ contents b)
      × ((appended a b).pool ≡ a.pool)
unfolding appended
appended_lem a b v w e =
    let (c, d, run, cv, dv, all, none_left, pool) = append_batch-contents a b v w e in
    rw (run, appended) (cv, all, pool)

module _ (received taken : List ℕ) (granted : ℕ) where
  pub moved :
      (c : Connection) (releasable : ℕ)
      → releasable ≡ c.releasable_stream_receive_bytes + length (contents c.app.receive_batch)
      → Delivers received taken granted c
      → Flows received
          (taken ++ contents c.app.receive_batch)
          granted
          (empty_stream_batch c.app.receive_batch.pool)
          c.stream_receive_batch
          c.protocol.rx_offset
          releasable
          c.stream_receive_operation_pending
  moved c releasable e v = record {
    order =
        append_assoc taken (contents c.app.receive_batch) (contents c.stream_receive_batch)
        ∙ v.order;
    offset = v.offset;
    credit = omega (arith, v.credit, e, length-append taken (contents c.app.receive_batch));
    small = v.small;
    app_valid = omega arith;
    worker_valid = v.worker_valid;
    pools = v.pools;
    noticed = v.noticed;
  }

  -- The credit to give back does not wrap.
  pub counted :
      (c : Connection)
      → Delivers received taken granted c
      → add64 c.releasable_stream_receive_bytes c.app.receive_batch.byte_count
        ≡ c.releasable_stream_receive_bytes + length (contents c.app.receive_batch)
  counted c v = omega (
    arith,
    v.credit,
    v.small,
    v.app_valid.bytes,
    ap length v.order,
    length-append taken (contents c.app.receive_batch ++ contents c.stream_receive_batch),
    length-append (contents c.app.receive_batch) (contents c.stream_receive_batch),
  )

  abbrev pub credited : Connection → Connection
  credited c = record c {
    app = record (c.app) { receive_batch = empty_stream_batch c.app.receive_batch.pool };
    releasable_stream_receive_bytes =
        add64 c.releasable_stream_receive_bytes c.app.receive_batch.byte_count;
  }

  -- A queued operation may stand for bytes that wait.
  pub flushes :
      (c : Connection)
      → Flows received taken granted c.app.receive_batch c.stream_receive_batch c.protocol.rx_offset
          c.releasable_stream_receive_bytes true
      → Delivers received taken granted (queue_stream_receive_flush c)
  flushes c v = let (a, p, b, r, q) = queue_stream_receive_flush_lem c in rw (a, p, b, r, q) v

  pub will_flush :
      (app worker : StreamReceiveBatch) (rx_offset releasable : ℕ) (pending : Bool)
      → Flows received taken granted app worker rx_offset releasable pending
      → Flows received taken granted app worker rx_offset releasable true
  will_flush app worker rx_offset releasable pending v = record {
    order = v.order;
    offset = v.offset;
    credit = v.credit;
    small = v.small;
    app_valid = v.app_valid;
    worker_valid = v.worker_valid;
    pools = v.pools;
    noticed = λ e. cc;
  }

module _ (received taken : List ℕ) (granted : ℕ) where
  -- The bytes behind those that the worker has.
  pub grown :
      (c : Connection) (bytes : List ℕ)
      → length received + length bytes < 2 ^ 64
      → Delivers received taken granted c
      → Flows
          (received ++ bytes)
          taken
          granted
          c.app.receive_batch
          (append_bytes c.stream_receive_batch bytes).0
          (add64 c.protocol.rx_offset (length bytes))
          c.releasable_stream_receive_bytes
          true
  grown c bytes room v =
      let (done, valid, all, pool) =
        append_bytes-contents c.stream_receive_batch bytes v.worker_valid in
      record {
        order =
            ap (λ l. taken ++ (contents c.app.receive_batch ++ l)) all
            ∙ ap (◌++◌ taken) (
                sym (
                  append_assoc (contents c.app.receive_batch) (contents c.stream_receive_batch)
                    bytes))
            ∙ sym (
                append_assoc taken (contents c.app.receive_batch ++ contents c.stream_receive_batch)
                  bytes)
            ∙ ap (λ l. l ++ bytes) v.order;
        offset = omega (arith, v.offset, length-append received bytes);
        credit = v.credit;
        small = omega (arith, length-append received bytes);
        app_valid = v.app_valid;
        worker_valid = valid;
        pools = v.pools ∙ sym pool;
        noticed = λ e. cc;
      }

  pub append_received_lem :
      (c : Connection) (bytes : List ℕ)
      → length received + length bytes < 2 ^ 64
      → Delivers received taken granted c
      → let d = append_received_stream_data c bytes in
        Flows
          (received ++ bytes)
          taken
          granted
          d.app.receive_batch
          d.stream_receive_batch
          (add64 d.protocol.rx_offset (length bytes))
          d.releasable_stream_receive_bytes
          d.stream_receive_operation_pending
  unfolding append_received_stream_data
  append_received_lem c [] room v =
      let e : add64 c.protocol.rx_offset 0 ≡ c.protocol.rx_offset =
        omega (arith, v.offset, v.small) in
      rw (append-nil, e) v
  append_received_lem c (x ∷ xs) room v =
      let d = record c {
        stream_receive_batch = (append_bytes c.stream_receive_batch (x ∷ xs)).0;
      } in
      let (a, p, b, r, q) = queue_stream_receive_flush_lem d in
      rw (a, p, b, r, q) (grown c (x ∷ xs) room v)
