-- ===== src/Agent/Queues.antt =====
-- What the sections of native/P2P.c do with the agent's queues and its data sink.
use ffl_p2p.Prelude.{
  ℕ, zero, suc, ◌+◌, ◌≤◌, ◌≡◌, refl, ap, ◌∙◌, ◌⊎◌, inl, inr, Bool, true, false, ◌&&◌, some, List,
  [], ◌∷◌, ◌++◌, length, if◌then◌else◌, is_empty, arith,
}
use ffl_p2p.Agent.{
  DataSink, Agent, set_sink, clear_sink, drain_events, drain_queue, rearm_event, rearm_receive,
  signal_event, signal_receive, sink_for,
}

drain_queue_lem :
    {A : Type 0} (n : ℕ) (xs : List A)
    → let (taken, rest, room) = drain_queue n xs in
      (taken ++ rest ≡ xs) × (length taken + room ≡ n) × (room ≡ 0 ⊎ is_empty rest ≡ true)
unfolding drain_queue
drain_queue_lem zero xs = (refl, omega arith, inl refl)
drain_queue_lem (suc n) [] = (refl, omega arith, inr refl)
drain_queue_lem (suc n) (x ∷ xs) =
    let (kept, counted, done) = drain_queue_lem n xs in (ap (x ∷◌) kept, omega arith, done)

rearm_event-queues :
    (a : Agent) → ((rearm_event a).events ≡ a.events) × ((rearm_event a).receives ≡ a.receives)
unfolding rearm_event
rearm_event-queues a = ground arith

signals-queues :
    (a : Agent)
    → ((signal_event (signal_receive a).0).0.events ≡ a.events)
      × ((signal_event (signal_receive a).0).0.receives ≡ a.receives)
unfolding signal_event signal_receive
signals-queues a = ground arith

rearm_receive-queues :
    (a : Agent) → ((rearm_receive a).events ≡ a.events) × ((rearm_receive a).receives ≡ a.receives)
unfolding rearm_receive
rearm_receive-queues a = ground arith

if_rearm-queues :
    (c : Bool) (a : Agent)
    → ((if c then a else rearm_receive a).events ≡ a.events)
      × ((if c then a else rearm_receive a).receives ≡ a.receives)
if_rearm-queues true a = (refl, refl)
if_rearm-queues false a = rearm_receive-queues a

drain_events-queues :
    (n : ℕ) (a : Agent)
    → let first = drain_queue n (rearm_event a).events in
      let second = drain_queue first.2 (rearm_event a).receives in
      ((drain_events n a).1.events ≡ first.1) × ((drain_events n a).1.receives ≡ second.1)
unfolding drain_events
drain_events-queues n a =
    let first = drain_queue n (rearm_event a).events in
    let second = drain_queue first.2 (rearm_event a).receives in
    let c = record (rearm_event a) { events = first.1; receives = second.1 } in
    let d = if is_empty second.0 then c else rearm_receive c in
    (
      (signals-queues d).0 ∙ (if_rearm-queues (is_empty second.0) c).0,
      (signals-queues d).1 ∙ (if_rearm-queues (is_empty second.0) c).1,
    )

is_empty-length : {A : Type 0} (xs : List A) → length xs ≡ 0 → is_empty xs ≡ true
is_empty-length [] h = refl
is_empty-length (x ∷ xs) h = absurd (omega arith)

-- The ends of the two loops together: either `n` are taken or both queues are empty.
ends :
    {A B : Type 0} {n room room' : ℕ} (k l : ℕ) (xs : List A) (ys : List B)
    → k + room ≡ n
    → l + room' ≡ room
    → room ≡ 0 ⊎ is_empty xs ≡ true
    → room' ≡ 0 ⊎ is_empty ys ≡ true
    → k + l ≡ n ⊎ (is_empty xs && is_empty ys ≡ true)
ends k l xs ys p q r t = ground arith

no_room :
    {A B : Type 0} {room : ℕ} (room' : ℕ) (xs : List A) (ys : List B)
    → length ys + room' ≡ room
    → room ≡ 0 ⊎ is_empty xs ≡ true
    → is_empty xs ≡ true ⊎ is_empty ys ≡ true
no_room room' xs ys p (inl q) = inr (is_empty-length ys (omega arith))
no_room room' xs ys p (inr q) = inl q

-- `drainEvents` takes the events and then the datagrams that were queued first, in their order, and
-- leaves the rest in its order: nothing is lost, and nothing is taken twice. It takes at most
-- `max_events`, and fewer only where both queues are empty after it.
pub drain_events_lem :
    (n : ℕ) (a : Agent)
    → let (d, b, g) = drain_events n a in
      (d.events ++ b.events ≡ a.events)
      × (d.receives ++ b.receives ≡ a.receives)
      × (length d.events + length d.receives ≤ n)
      × ((length d.events + length d.receives ≡ n)
          ⊎ (is_empty b.events && is_empty b.receives ≡ true))
      × (is_empty b.events ≡ true ⊎ is_empty d.receives ≡ true)
unfolding drain_events
drain_events_lem n a =
    let events = drain_queue_lem n (rearm_event a).events in
    let room = (drain_queue n (rearm_event a).events).2 in
    let receives = drain_queue_lem room (rearm_event a).receives in
    let left = drain_events-queues n a in
    let same = rearm_event-queues a in
    (
      ap ((drain_queue n (rearm_event a).events).0 ++◌) left.0 ∙ events.0 ∙ same.0,
      ap ((drain_queue room (rearm_event a).receives).0 ++◌) left.1 ∙ receives.0 ∙ same.1,
      omega (arith, events.1, receives.1),
      rw (left.0, left.1) (ends _ _ _ _ events.1 receives.1 events.2 receives.2),
      rw (left.0) (no_room _ _ _ receives.1 events.2),
    )

-- A sink that was set takes the agent's datagrams, and clearing it leaves the agent as it was before.
pub clear_sink-set_sink :
    (d : DataSink) (a b : Agent)
    → set_sink d a ≡ some b
    → (sink_for b ≡ some d) × (clear_sink d b ≡ a)
unfolding set_sink clear_sink sink_for
clear_sink-set_sink d a b h = ground arith
