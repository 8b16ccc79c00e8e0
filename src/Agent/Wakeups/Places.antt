-- ===== src/Agent/Wakeups/Places.antt =====
-- Where the wake-ups of an agent of native/P2P.c are while its threads run.
use ffl_p2p.Prelude.{ℕ, ◌+◌, ◌-◌, ◌<◌, ◌≡◌, ◌⊎◌, true, false, some, List, is_empty, arith}
use ffl_p2p.Agent.{
  AgentEvent, DataSink, Agent, queue_event, queue_receive, set_sink, clear_sink, pop_receive,
  drain_events, mark_closed, destroy_juice, clear_event, claim_receive, rearm_event, rearm_receive,
  signal_event, signal_receive,
}
use ffl_p2p.Agent.Wakeups.{
  count, System, fresh_system, leave, leave_with, release_event, release_receive, acquire_event,
  acquire_receive, start_drain, Step, Reach, IsValid, queues, receives, releases_event,
  releases_receive, polls, acquires_event, clears, drains, pops, acquires_receive, claims,
  sets_sink, clears_sink, closes, destroys, here, next,
}

queue_event-IsValid :
    (s : System) (e : AgentEvent) → IsValid s → IsValid (leave s (queue_event e s.agent))
unfolding queue_event
queue_event-IsValid s e v = ground arith

queue_receive-IsValid :
    (s : System) (bytes : List ℕ) → IsValid s → IsValid (leave s (queue_receive bytes s.agent))
unfolding queue_receive
queue_receive-IsValid s bytes v = ground arith

mark_closed-IsValid : (s : System) → IsValid s → IsValid (record s { agent = mark_closed s.agent })
unfolding mark_closed
mark_closed-IsValid s v = ground arith

destroy_juice-IsValid :
    (s : System) → IsValid s → IsValid (record s { agent = destroy_juice s.agent })
unfolding destroy_juice
destroy_juice-IsValid s v = ground arith

drain_events-IsValid :
    (s : System) (n k : ℕ)
    → IsValid s
    → IsValid (leave_with (record s { drainers = k }) (drain_events n s.agent))
unfolding drain_events rearm_event rearm_receive signal_event signal_receive
drain_events-IsValid s n k v = ground arith

pop_receive-IsValid : (s : System) → IsValid s → IsValid (leave_with s (pop_receive s.agent))
unfolding pop_receive rearm_receive signal_receive
pop_receive-IsValid s v = ground arith

release_event-IsValid : (s : System) → 0 < s.event_releases → IsValid s → IsValid (release_event s)
unfolding release_event
release_event-IsValid s p v = ground arith

release_receive-IsValid :
    (s : System) → 0 < s.receive_releases → IsValid s → IsValid (release_receive s)
unfolding release_receive
release_receive-IsValid s p v = ground arith

acquire_event-IsValid :
    (s : System) → s.agent.event_available ≡ true → IsValid s → IsValid (acquire_event s)
unfolding acquire_event
acquire_event-IsValid s p v = ground arith

acquire_receive-IsValid :
    (s : System) → s.agent.receive_available ≡ true → IsValid s → IsValid (acquire_receive s)
unfolding acquire_receive
acquire_receive-IsValid s p v = ground arith

start_drain-IsValid : (s : System) → 0 < s.event_claims → IsValid s → IsValid (start_drain s)
unfolding start_drain clear_event
start_drain-IsValid s p v = ground arith

set_sink-IsValid :
    (s : System) (d : DataSink) (a : Agent)
    → set_sink d s.agent ≡ some a
    → IsValid s
    → IsValid (record s { agent = a })
unfolding set_sink
set_sink-IsValid s d a p v = ground arith

clear_sink-IsValid :
    (s : System) (d : DataSink) → IsValid s → IsValid (record s { agent = clear_sink d s.agent })
unfolding clear_sink
clear_sink-IsValid s d v = ground arith

claim_receive-IsValid :
    (s : System)
    → 0 < s.receive_claims
    → IsValid s
    → IsValid
        (leave_with (record s { receive_claims = s.receive_claims - 1 }) (claim_receive s.agent))
unfolding claim_receive pop_receive rearm_receive signal_receive
claim_receive-IsValid s p v = ground arith

Step-IsValid : {s t : System} → IsValid s → Step s t → IsValid t
Step-IsValid v (queues e) = queue_event-IsValid _ e v
Step-IsValid v (receives bytes) = queue_receive-IsValid _ bytes v
Step-IsValid v (releases_event p) = release_event-IsValid _ p v
Step-IsValid v (releases_receive p) = release_receive-IsValid _ p v
Step-IsValid v (polls n) = drain_events-IsValid _ n _ v
Step-IsValid v (acquires_event p) = acquire_event-IsValid _ p v
Step-IsValid v (clears p) = start_drain-IsValid _ p v
Step-IsValid v (drains n p) = drain_events-IsValid _ n _ v
Step-IsValid v pops = pop_receive-IsValid _ v
Step-IsValid v (acquires_receive p) = acquire_receive-IsValid _ p v
Step-IsValid v (claims p) = claim_receive-IsValid _ p v
Step-IsValid v (sets_sink d a p) = set_sink-IsValid _ d a p v
Step-IsValid v (clears_sink d) = clear_sink-IsValid _ d v
Step-IsValid v closes = mark_closed-IsValid _ v
Step-IsValid v destroys = destroy_juice-IsValid _ v

noticed :
    {s : System}
    → IsValid s
    → s.event_claims ≡ 0
    → s.drainers ≡ 0
    → is_empty s.agent.events ≡ false ⊎ is_empty s.agent.receives ≡ false
    → s.agent.event_available ≡ true ⊎ 0 < s.event_releases
noticed v c d q = ground arith

receives_known :
    {s : System}
    → IsValid s
    → s.receive_claims ≡ 0
    → is_empty s.agent.receives ≡ false
    → s.agent.receive_available ≡ true ⊎ 0 < s.receive_releases
receives_known v c q = ground arith

fresh-IsValid : IsValid fresh_system
fresh-IsValid = ground arith

Reach-IsValid : {s : System} → Reach fresh_system s → IsValid s
Reach-IsValid here = fresh-IsValid
Reach-IsValid (next r p) = Step-IsValid (Reach-IsValid r) p

-- Whatever the threads have done since the agent was made, in any order: the event wake-up is
-- available, on its way to be released, or got and not yet answered for exactly one thread when its
-- flag is up, and for none when it is not; so it is never released twice. The same holds of the
-- receive wake-up.
pub Reach-one :
    {s : System}
    → Reach fresh_system s
    → (count s.agent.event_available + s.event_releases + s.event_claims
        ≡ count s.agent.event_signaled)
      × (count s.agent.receive_available + s.receive_releases + s.receive_claims
          ≡ count s.agent.receive_signaled)
Reach-one r = let v = Reach-IsValid r in (v.one_event, v.one_receive)

-- No wake-up is lost. Whatever the threads have done since the agent was made, while no thread has got
-- the event wake-up or is about to drain, an agent with something queued has its event wake-up
-- available or about to be released.
pub Reach-events_noticed :
    {s : System}
    → Reach fresh_system s
    → s.event_claims ≡ 0
    → s.drainers ≡ 0
    → is_empty s.agent.events ≡ false ⊎ is_empty s.agent.receives ≡ false
    → s.agent.event_available ≡ true ⊎ 0 < s.event_releases
Reach-events_noticed r c d q = noticed (Reach-IsValid r) c d q

-- The same of the receive wake-up: while no thread has got it, an agent with a datagram queued has it
-- available or about to be released.
pub Reach-receives_noticed :
    {s : System}
    → Reach fresh_system s
    → s.receive_claims ≡ 0
    → is_empty s.agent.receives ≡ false
    → s.agent.receive_available ≡ true ⊎ 0 < s.receive_releases
Reach-receives_noticed r c q = receives_known (Reach-IsValid r) c q
