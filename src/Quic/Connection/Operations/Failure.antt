-- ===== src/Quic/Connection/Operations/Failure.antt =====
-- processOperations and failFromRuntime (native/quic/Connection.cpp): exceptions and shutdown.
use ffl_p2p.Prelude.{
  ℕ, zero, suc, ◌≡◌, refl, ap, ◌∙◌, subst, Bool, true, false, Option, none, some, List, [], ◌∷◌,
  is_some, ok, err, arith, Bool-cases, if_cases, inl, inr,
}
use ffl_p2p.Quic.Library.{Error, message, Outside}
use ffl_p2p.Quic.Connection.{
  Connection, AppState, Operation, complete, set_error, drain_failed_operations,
  publish_application_state,
}
use ffl_p2p.Quic.Protocol.{ProtocolState, release_transport}
use ffl_p2p.Quic.Connection.Callbacks.{Stepped}
use ffl_p2p.Quic.Connection.Flush.{AggregateWriter}
use ffl_p2p.Quic.Connection.Operations.{
  stop, fail_operation, fail_from_runtime, conclude, go_on, on_processed, on_queue, process_queue,
  published, process_operations,
}

-- Whoever waits for the completion is woken.
abbrev pub Answered : Connection → Option ℕ → Type 0
Answered c none = Unit
Answered c (some id) = is_some (c.completions id) ≡ true

abbrev pub AllAnswered : Connection → List Operation → Type 0
AllAnswered c [] = Unit
AllAnswered c (o ∷ os) = Answered c o.completion × AllAnswered c os

complete-Answered :
    (c : Connection) (id : Option ℕ) (e : Option Error) → Answered (complete c id e) id
unfolding complete
complete-Answered c none e = tt
complete-Answered c (some id) e = ground arith

complete-keeps :
    (c : Connection) (id j : Option ℕ) (e : Option Error)
    → Answered c j
    → Answered (complete c id e) j
unfolding complete
complete-keeps c none j e h = h
complete-keeps c (some id) none e h = tt
complete-keeps c (some id) (some j) e h = ground arith

drain-keeps :
    (os : List Operation) (c : Connection) (e : Error) (j : Option ℕ)
    → Answered c j
    → Answered (drain_failed_operations os c e) j
unfolding drain_failed_operations
drain-keeps [] c e none h = tt
drain-keeps [] c e (some j) h = h
drain-keeps (o ∷ os) c e j h =
    drain-keeps os (complete c o.completion (some e)) e j
      (complete-keeps c o.completion j (some e) h)

drain-AllAnswered :
    (os : List Operation) (c : Connection) (e : Error)
    → AllAnswered (drain_failed_operations os c e) os
unfolding drain_failed_operations
drain-AllAnswered [] c e = tt
drain-AllAnswered (o ∷ os) c e = (
  drain-keeps os (complete c o.completion (some e)) e o.completion
      (complete-Answered c o.completion (some e)),
  drain-AllAnswered os (complete c o.completion (some e)) e,
)

complete_lem :
    (c : Connection) (id : Option ℕ) (e : Option Error)
    → let d = complete c id e in
      (d.stopped ≡ c.stopped) × (d.protocol ≡ c.protocol) × (d.app ≡ c.app)
unfolding complete
complete_lem c none e = (refl, refl, refl)
complete_lem c (some id) e = (refl, refl, refl)

-- Draining changes nothing but the queue and the completions.
drain_lem :
    (os : List Operation) (c : Connection) (e : Error)
    → let d = drain_failed_operations os c e in
      (d.operations ≡ []) × (d.stopped ≡ c.stopped) × (d.protocol ≡ c.protocol) × (d.app ≡ c.app)
unfolding drain_failed_operations
drain_lem [] c e = (refl, refl, refl, refl)
drain_lem (o ∷ os) c e =
    let (a, b, f) = complete_lem c o.completion (some e) in
    let (empty, s, p, q) = drain_lem os (complete c o.completion (some e)) e in
    (empty, s ∙ a, p ∙ b, q ∙ f)

set_error_lem : (c : Connection) (e : Error) → is_some (set_error c e).app.error ≡ true
unfolding set_error
set_error_lem c e = elim (Bool-cases (is_some c.app.error)) [
  | inl known ↦ rw known known
  | inr fresh ↦ rw fresh refl
]

failed_lem :
    (c : Connection) (completion : Option ℕ) (e : Error)
    → let d = stop (set_error (complete c completion (some e)) e) in
      (d.operations ≡ c.operations)
      × ((d.protocol.conn ≡ false) × (is_some d.app.error ≡ true))
      × Answered d completion
unfolding release_transport complete set_error
failed_lem c none e = (refl, (refl, set_error_lem c e), tt)
failed_lem c (some id) e = (refl, (refl, set_error_lem c e), complete-Answered c (some id) (some e))

-- After an exception in an operation: the connection is stopped and without its transport, an error
-- is there to read, nothing is queued, and the operation as well as each one that was queued behind
-- it is answered.
pub fail_operation-AllAnswered :
    (c : Connection) (completion : Option ℕ) (e : Error)
    → let d = fail_operation c completion e in
      (d.stopped ≡ true)
      × (d.protocol.conn ≡ false)
      × (d.operations ≡ [])
      × (is_some d.app.error ≡ true)
      × Answered d completion
      × AllAnswered d c.operations
unfolding fail_operation
fail_operation-AllAnswered c completion e =
    let k = complete c completion (some e) in
    let d = stop (set_error k e) in
    let (empty, s, p, a) = drain_lem d.operations d e in
    let (same, kept, answered) = failed_lem c completion e in
    (
      s,
      ap (λ (q : ProtocolState). q.conn) p ∙ kept.0,
      empty,
      ap (λ (q : AppState). is_some q.error) a ∙ kept.1,
      drain-keeps d.operations d e completion answered,
      subst (AllAnswered (drain_failed_operations d.operations d e)) same
          (drain-AllAnswered d.operations d e),
    )

-- The same for a connection whose worker ends.
pub fail_from_runtime-AllAnswered :
    (c : Connection) (e : Error)
    → let d = fail_from_runtime c e in
      (d.stopped ≡ true)
      × (d.protocol.conn ≡ false)
      × (d.operations ≡ [])
      × (is_some d.app.error ≡ true)
      × AllAnswered d c.operations
unfolding fail_from_runtime complete
fail_from_runtime-AllAnswered c e =
    let d = stop (set_error c e) in
    let (empty, s, p, a) = drain_lem d.operations d e in
    let (same, kept, answered) = failed_lem c none e in
    (
      s,
      ap (λ (q : ProtocolState). q.conn) p ∙ kept.0,
      empty,
      ap (λ (q : AppState). is_some q.error) a ∙ kept.1,
      subst (AllAnswered (drain_failed_operations d.operations d e)) same
          (drain-AllAnswered d.operations d e),
    )

-- A completion that was answered stays so when the worker ends.
pub fail_from_runtime-keeps :
    (c : Connection) (e : Error) (j : Option ℕ) → Answered c j → Answered (fail_from_runtime c e) j
unfolding fail_from_runtime set_error
fail_from_runtime-keeps c e none h = tt
fail_from_runtime-keeps c e (some j) h =
    let d = stop (set_error c e) in drain-keeps d.operations d e (some j) h

-- How an operation ends: with the loop going on, or with nothing queued any more.
abbrev Concluded : {W : Type 0} → Bool × W × Connection → Type 0
Concluded (more, w, d) = (more ≡ true → d.stopped ≡ false) × (more ≡ false → d.operations ≡ [])

abbrev Emptied : {W : Type 0} → Option (W × Connection) → Type 0
Emptied none = Unit
Emptied (some (w, d)) = d.stopped ≡ true → d.operations ≡ []

module _ {W : Type 0} (out : Outside W) (write_aggregate : AggregateWriter W) where
  conclude-Concluded :
      (o : Operation) (s : Stepped W) → Concluded (conclude out write_aggregate o s)
  unfolding conclude
  conclude-Concluded o (w, c, err e) =
      (λ h. ground arith, λ h. (fail_operation-AllAnswered c o.completion e).2)
  conclude-Concluded o (w, c, ok u) =
      let k = complete c o.completion none in
      if_cases Concluded k.stopped
        (λ stopped. (
          λ h. ground arith,
          λ h. (drain_lem k.operations k (message "QUIC runtime is stopped")).0,
        ))
        (λ runs. (λ h. runs, λ h. ground arith))

  go_on-Emptied :
      (r : Bool × W × Connection) (next : Connection → W → Option (W × Connection))
      → Concluded r
      → ((d : Connection) (v : W) → d.stopped ≡ false → Emptied (next d v))
      → Emptied (go_on out write_aggregate r next)
  unfolding go_on
  go_on-Emptied (true, v, d) next h n = n d v (h.0 refl)
  go_on-Emptied (false, v, d) next h n = λ stopped. h.1 refl

  on_processed-Emptied :
      (o : Operation) (s : Option (Stepped W)) (next : Connection → W → Option (W × Connection))
      → ((d : Connection) (v : W) → d.stopped ≡ false → Emptied (next d v))
      → Emptied (on_processed out write_aggregate o s next)
  unfolding on_processed
  on_processed-Emptied o none next n = tt
  on_processed-Emptied o (some s) next n =
      go_on-Emptied (conclude out write_aggregate o s) next (conclude-Concluded o s) n

  on_queue-Emptied :
      (os : List Operation) (c : Connection) (w : W)
      (next : Connection → W → Option (W × Connection))
      → c.stopped ≡ false
      → ((d : Connection) (v : W) → d.stopped ≡ false → Emptied (next d v))
      → Emptied (on_queue out write_aggregate os c w next)
  unfolding on_queue
  on_queue-Emptied [] c w next runs n = λ stopped. ground arith
  on_queue-Emptied (o ∷ os) c w next runs n = on_processed-Emptied o _ next n

  process_queue-Emptied :
      (budget : ℕ) (c : Connection) (w : W)
      → c.stopped ≡ false
      → Emptied (process_queue out write_aggregate budget c w)
  unfolding process_queue
  process_queue-Emptied zero c w runs = λ stopped. ground arith
  process_queue-Emptied (suc budget) c w runs =
      on_queue-Emptied c.operations c w (λ d v. process_queue out write_aggregate budget d v) runs
        (λ d v h. process_queue-Emptied budget d v h)

  -- Where processing stops a connection that ran, by a shutdown or by an exception, nothing stays in
  -- the queue.
  pub process_operations_stops :
      (budget : ℕ) (c : Connection) (w w' : W) (d : Connection)
      → c.stopped ≡ false
      → process_operations out write_aggregate budget c w ≡ some (w', d)
      → d.stopped ≡ true
      → d.operations ≡ []
  unfolding process_operations publish_application_state
  process_operations_stops budget c w w' d runs run stopped =
      (subst Emptied run (
          publish (process_queue out write_aggregate budget c w)
            (process_queue-Emptied budget c w runs)))
        stopped
    where
      publish :
          (r : Option (W × Connection)) → Emptied r → Emptied (published out write_aggregate r)
      publish none h = tt
      publish (some (v, k)) h = h
