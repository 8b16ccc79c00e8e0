-- ===== src/Quic/Connection/Application/Writes.antt =====
-- What the application reads about its writes (native/quic/Connection.cpp).
use ffl_p2p.Prelude.{
  ◌++◌, ℕ, ◌+◌, ◌^◌, ◌≤◌, ◌<◌, ◌≡◌, refl, sym, subst, Bool, true, false, not, ◌&&◌, ◌||◌, Option,
  none, some, List, [], ◌∷◌, length, Result, ok, arith, if_cases, ap, ◌∙◌,
}
use ffl_p2p.Quic.Library.{Error, Outside}
use ffl_p2p.Quic.Protocol.{add64}
use ffl_p2p.Quic.Connection.{
  Connection, is_shutdown, Operation, api_send, queue_operation, publish_application_state,
}
use ffl_p2p.Quic.Connection.Flush.{AggregateWriter}
use ffl_p2p.Quic.Connection.Operations.{process_queue, published, process_operations}
use ffl_p2p.Quic.Connection.Application.{
  create_send_operation, has_pending_write, get_buffered_write_bytes, is_write_acknowledged,
}

-- A write that is acknowledged in full has nothing buffered.
pub is_write_acknowledged-buffered :
    (c : Connection) → is_write_acknowledged c ≡ true → get_buffered_write_bytes c ≡ 0
unfolding is_write_acknowledged get_buffered_write_bytes
is_write_acknowledged-buffered c h = ground arith

abbrev Counts : Connection → ℕ → List ℕ → Bool → Connection → Type 0
Counts c x xs fin d =
    (get_buffered_write_bytes d ≡ get_buffered_write_bytes c + length (x ∷ xs))
    × (has_pending_write d ≡ true)
    × (is_write_acknowledged d ≡ false)
    × (d.operations
        ≡ c.operations
          ++ (record { type = api_send; bytes = x ∷ xs; fin = fin; completion = none }) ∷ [])

abbrev send_of : ℕ → List ℕ → Bool → Operation
send_of x xs fin = record { type = api_send; bytes = x ∷ xs; fin = fin; completion = none }

abbrev counted_in : Connection → ℕ → List ℕ → Bool → Connection
counted_in c x xs fin = record c {
  application_write_offset = add64 c.application_write_offset (length (x ∷ xs));
  application_fin_requested = fin || c.application_fin_requested;
}

-- An operation of a connection that runs goes to the end of the queue.
queue_operation_lem :
    (c : Connection) (o : Operation)
    → c.stopped ≡ false
    → queue_operation c o ≡ record c { operations = c.operations ++ o ∷ [] }
unfolding queue_operation
queue_operation_lem c o runs =
    if_cases (λ d. d ≡ record c { operations = c.operations ++ o ∷ [] })
      (c.stopped && not (is_shutdown o.type)) (λ h. absurd (clash c.stopped _ runs h)) (λ h. refl)
  where
    clash : (b x : Bool) → b ≡ false → (b && x) ≡ true → ⊥
    clash true x e h = ground arith
    clash false x e h = ground arith

-- A send that is accepted grows what is buffered by exactly its bytes, until the worker or the peer
-- does something, is pending, and is at the end of the queue.
create_send_operation-buffered :
    (c d : Connection) (x : ℕ) (xs : List ℕ) (fin : Bool)
    → c.application_write_offset + length (x ∷ xs) < 2 ^ 64
    → c.app.acked_write_offset ≤ c.app.submitted_write_offset
    → c.app.submitted_write_offset ≤ c.application_write_offset
    → create_send_operation c (some (x ∷ xs)) fin ≡ (d, ok tt)
    → (get_buffered_write_bytes d ≡ get_buffered_write_bytes c + length (x ∷ xs))
      × (has_pending_write d ≡ true)
      × (is_write_acknowledged d ≡ false)
      × (d.operations
          ≡ c.operations
            ++ (record { type = api_send; bytes = x ∷ xs; fin = fin; completion = none }) ∷ [])
unfolding create_send_operation get_buffered_write_bytes has_pending_write is_write_acknowledged
create_send_operation-buffered c d x xs fin room acked submitted =
    if_cases (λ r. r ≡ (d, ok tt) → Counts c x xs fin d) (not c.started) (λ idle run. ground arith)
      (λ started.
        if_cases (λ r. r ≡ (d, ok tt) → Counts c x xs fin d) c.stopped (λ stopped run. ground arith)
          (λ runs run.
            let e =
              sym (queue_operation_lem (counted_in c x xs fin) (send_of x xs fin) runs)
              ∙ ap (λ (r : Connection × Result Error (Unit {0})). r.0) run in
            subst (Counts c x xs fin) e (ground arith, ground arith, ground arith, refl)))

-- Where the worker has let the transport go, it publishes once more, and the application reads that
-- nothing was written, nothing is acknowledged and the handshake is not complete.
process_operations-unpublished :
    {W : Type 0} (out : Outside W) (write_aggregate : AggregateWriter W) (budget : ℕ)
    (c : Connection) (w w' : W) (d : Connection)
    → process_operations out write_aggregate budget c w ≡ some (w', d)
    → d.protocol.conn ≡ false
    → (d.app.submitted_write_offset ≡ 0)
      × (d.app.acked_write_offset ≡ 0)
      × (d.app.fin_acked ≡ false)
      × (d.app.handshake_complete ≡ false)
unfolding process_operations publish_application_state
process_operations-unpublished {W = W} out write_aggregate budget c w w' d run =
    subst Unpublished run (publish (process_queue out write_aggregate budget c w))
  where
    Unpublished : Option (W × Connection) → Type 0
    Unpublished none = Unit
    Unpublished (some (v, k)) =
        k.protocol.conn ≡ false
        → (k.app.submitted_write_offset ≡ 0)
          × (k.app.acked_write_offset ≡ 0)
          × (k.app.fin_acked ≡ false)
          × (k.app.handshake_complete ≡ false)

    publish : (r : Option (W × Connection)) → Unpublished (published out write_aggregate r)
    publish none = tt
    publish (some (v, k)) = λ gone. (ground arith, ground arith, ground arith, ground arith)
