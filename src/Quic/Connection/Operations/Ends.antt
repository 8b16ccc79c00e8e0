-- ===== src/Quic/Connection/Operations/Ends.antt =====
-- processOperations (native/quic/Connection.cpp): its end.
use ffl_p2p.Prelude.{
  ℕ, zero, suc, ◌≡◌, refl, sym, subst, Bool, true, false, not, Option, some, List, [], ◌∷◌, ok, err,
  if_cases,
}
use ffl_p2p.Quic.Library.{Outside}
use ffl_p2p.Quic.Connection.{
  Connection, Operation, OperationType, api_start, api_send, flush_recv, flush_stream_recv,
  flush_send, timer_expired, shutdown, release_stream_recv_credit,
}
use ffl_p2p.Quic.Connection.Callbacks.{Stepped}
use ffl_p2p.Quic.Connection.Flush.{AggregateWriter, Flushed}
use ffl_p2p.Quic.Connection.Flush.Settles.{flush_packets-ends}
use ffl_p2p.Quic.Connection.Operations.{
  process_send_flush, requeue, process_type, process_operation, conclude, go_on, on_processed,
  on_queue, process_queue, published, process_operations,
}

module _ {W : Type 0} (out : Outside W) (write_aggregate : AggregateWriter W) where
  abbrev Returns : {A : Type 0} → Option A → Type 0
  Returns {A} o = (a : A) × (o ≡ some a)

  requeue-Returns : (f : Flushed W) → Returns (requeue out write_aggregate (some f))
  requeue-Returns (w, c, ok true) = (_, refl)
  requeue-Returns (w, c, ok false) = (_, refl)
  requeue-Returns (w, c, err e) = (_, refl)

  process_send_flush-Returns :
      (c : Connection) (w : W) → Returns (process_send_flush out write_aggregate c w)
  unfolding process_send_flush
  process_send_flush-Returns c w =
      let (f, run) = flush_packets-ends out write_aggregate c w in
      if_cases Returns (not c.protocol.conn) (λ h. (_, refl))
        (λ h. subst (λ o. Returns (requeue out write_aggregate o)) (sym run) (requeue-Returns f))

  process_type-Returns :
      (t : OperationType) (o : Operation) (c : Connection) (w : W)
      → Returns (process_type out write_aggregate t o c w)
  unfolding process_type
  process_type-Returns api_start o c w = (_, refl)
  process_type-Returns api_send o c w = (_, refl)
  process_type-Returns flush_recv o c w = (_, refl)
  process_type-Returns flush_stream_recv o c w = (_, refl)
  process_type-Returns flush_send o c w = process_send_flush-Returns _ w
  process_type-Returns timer_expired o c w = (_, refl)
  process_type-Returns shutdown o c w = (_, refl)
  process_type-Returns release_stream_recv_credit o c w = (_, refl)

  go_on-Returns :
      (r : Bool × W × Connection) (next : Connection → W → Option (W × Connection))
      → ((d : Connection) (v : W) → Returns (next d v))
      → Returns (go_on out write_aggregate r next)
  unfolding go_on
  go_on-Returns (true, v, d) next n = n d v
  go_on-Returns (false, v, d) next n = (_, refl)

  on_processed-Returns :
      (o : Operation) (s : Option (Stepped W)) (next : Connection → W → Option (W × Connection))
      → Returns s
      → ((d : Connection) (v : W) → Returns (next d v))
      → Returns (on_processed out write_aggregate o s next)
  unfolding on_processed
  on_processed-Returns o s next (t, run) n =
      subst (λ r. Returns (on_processed out write_aggregate o r next)) (sym run)
        (go_on-Returns (conclude out write_aggregate o t) next n)

  on_queue-Returns :
      (os : List Operation) (c : Connection) (w : W)
      (next : Connection → W → Option (W × Connection))
      → ((d : Connection) (v : W) → Returns (next d v))
      → Returns (on_queue out write_aggregate os c w next)
  unfolding on_queue process_operation
  on_queue-Returns [] c w next n = (_, refl)
  on_queue-Returns (o ∷ os) c w next n =
      on_processed-Returns o _ next (process_type-Returns o.type o _ w) n

  process_queue-Returns :
      (budget : ℕ) (c : Connection) (w : W) → Returns (process_queue out write_aggregate budget c w)
  unfolding process_queue
  process_queue-Returns zero c w = (_, refl)
  process_queue-Returns (suc budget) c w =
      on_queue-Returns c.operations c w (λ d v. process_queue out write_aggregate budget d v)
        (λ d v. process_queue-Returns budget d v)

  -- Processing ends, whatever the operations are and whatever ngtcp2 does.
  pub process_operations-ends :
      (budget : ℕ) (c : Connection) (w : W)
      → (r : W × Connection) × (process_operations out write_aggregate budget c w ≡ some r)
  unfolding process_operations
  process_operations-ends budget c w =
      let (r, run) = process_queue-Returns budget c w in
      subst (λ o. Returns (published out write_aggregate o)) (sym run) (_, refl)
