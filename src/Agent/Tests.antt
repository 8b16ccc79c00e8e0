-- ===== src/Agent/Tests.antt =====
-- Runs of the agent of native/P2P.c.
use ffl_p2p.Prelude.{
  ◌+◌, ◌≤◌, ◌<◌, ◌≡◌, refl, ◌⊎◌, inr, true, false, List, ◌&&◌, some, [], ◌∷◌, ◌++◌, length,
  is_empty, arith,
}
use ffl_p2p.Agent.{
  AgentEvent, Agent, DataSink, new_agent, queue_receive, set_sink, clear_sink, sink_for,
  drain_events,
}
use ffl_p2p.Agent.Wakeups.{
  System, fresh_system, leave, release_event, Reach, here, next, receives, releases_event, count,
}
use ffl_p2p.Agent.Wakeups.Places.{Reach-one, Reach-events_noticed}
use ffl_p2p.Agent.Queues.{drain_events_lem, clear_sink-set_sink}
use ffl_p2p.Agent.Lifetime.{Ledger, Allocations, AgentArguments}
use ffl_p2p.Agent.Lifetime.Balanced.{Use}

abbrev sink : DataSink
sink = record { callback = 1; user = 2 }

abbrev with_sink : Agent
with_sink = record new_agent { data_sink = some sink }

clear_sink-set_sink_example :
    (sink_for with_sink ≡ some sink) × (clear_sink sink with_sink ≡ new_agent)
unfolding set_sink
clear_sink-set_sink_example = clear_sink-set_sink sink new_agent with_sink refl

abbrev busy : Agent
busy = record new_agent {
  events = AgentEvent.state 1 ∷ AgentEvent.gathering_done ∷ [];
  receives = (1 ∷ []) ∷ (2 ∷ []) ∷ [];
  event_signaled = true;
  receive_signaled = true;
  event_available = true;
  receive_available = true;
}

drain_busy : (drain_events 3 busy).0.receives ≡ (1 ∷ []) ∷ []
unfolding drain_events
drain_busy = refl

drain_events_lem_example :
    let (d, b, g) = drain_events 3 busy in
    (d.events ++ b.events ≡ busy.events)
    × (d.receives ++ b.receives ≡ busy.receives)
    × (length d.events + length d.receives ≤ 3)
    × ((length d.events + length d.receives ≡ 3)
        ⊎ (is_empty b.events && is_empty b.receives ≡ true))
    × (is_empty b.events ≡ true ⊎ is_empty d.receives ≡ true)
drain_events_lem_example = drain_events_lem 3 busy

-- A datagram was queued, and its event wake-up released.
abbrev queued : System
queued = leave fresh_system (queue_receive (7 ∷ []) new_agent)

abbrev woken : System
woken = release_event queued

Reach-woken : Reach fresh_system woken
unfolding queue_receive
Reach-woken = next (next here (receives (7 ∷ []))) (releases_event (omega arith))

Reach-one_example :
    (count woken.agent.event_available + woken.event_releases + woken.event_claims
      ≡ count woken.agent.event_signaled)
    × (count woken.agent.receive_available + woken.receive_releases + woken.receive_claims
        ≡ count woken.agent.receive_signaled)
Reach-one_example = Reach-one Reach-woken

Reach-events_noticed_example : woken.agent.event_available ≡ true ⊎ 0 < woken.event_releases
unfolding queue_receive release_event
Reach-events_noticed_example = Reach-events_noticed Reach-woken refl refl (inr refl)

abbrev empty_ledger : Ledger
empty_ledger = record {
  locks = 0;
  locks_freed = 0;
  juices = 0;
  juices_freed = 0;
  datapaths = 0;
  datapaths_freed = 0;
  agents = 0;
  agents_freed = 0;
  nodes = 0;
  nodes_freed = 0;
}

abbrev allocations : Allocations
allocations = record {
  lock = true;
  event_available = true;
  receive_available = true;
  juice = true;
  datapath = true;
  agent = true;
}

abbrev ports : AgentArguments
ports = record { stun_port = 3478; port_begin = 0; port_end = 0 }

-- Three are queued and one is taken, and the closed object gets a fourth.
abbrev some_uses : List Use
some_uses =
    Use.queues true
    ∷ Use.queues false
    ∷ Use.queues true
    ∷ Use.takes 1
    ∷ Use.closes
    ∷ Use.queues true
    ∷ Use.closes
    ∷ []
