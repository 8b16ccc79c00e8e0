-- ===== src/Agent/Wakeups.antt =====
-- The threads around an agent of native/P2P.c: those of the ICE agent that queue, and any number that
-- poll, wait and receive. Each step is one section under the agent's lock, or one access to the lock
-- of a wake-up.
pub mod Places
use ffl_p2p.Prelude.{ℕ, ◌+◌, ◌-◌, ◌<◌, ◌≡◌, ◌⊎◌, Bool, true, false, some, List, is_empty, arith}
use ffl_p2p.Agent.{
  AgentEvent, DataSink, Agent, new_agent, Signals, queue_event, queue_receive, set_sink, clear_sink,
  pop_receive, drain_events, mark_closed, destroy_juice, clear_event, claim_receive, rearm_event,
  rearm_receive, signal_event, signal_receive,
}

abbrev pub count : Bool → ℕ
count true = 1
count false = 0

-- `event_releases` counts the threads that will release eventAvailable, `event_claims` those that got
-- it and have not yet cleared its flag, `drainers` those that have cleared it and will drain;
-- `receive_releases` and `receive_claims` are the same of receiveAvailable.
pub record System : Type 0 where
  pub agent : Agent
  pub event_releases : ℕ
  pub event_claims : ℕ
  pub drainers : ℕ
  pub receive_releases : ℕ
  pub receive_claims : ℕ

abbrev pub fresh_system : System
fresh_system = record {
  agent = new_agent;
  event_releases = 0;
  event_claims = 0;
  drainers = 0;
  receive_releases = 0;
  receive_claims = 0;
}

-- A section under the lock that leaves its thread with wake-ups to release.
abbrev pub leave : System → Agent × Signals → System
leave s (a, g) = record s {
  agent = a;
  event_releases = s.event_releases + count g.event;
  receive_releases = s.receive_releases + count g.receive;
}

-- The same, after a section that has a result.
abbrev pub leave_with : {X : Type 0} → System → X × Agent × Signals → System
leave_with s (x, a, g) = leave s (a, g)

unfoldable pub release_event : System → System
release_event s = record s {
  agent = record (s.agent) { event_available = true };
  event_releases = s.event_releases - 1;
}

unfoldable pub release_receive : System → System
release_receive s = record s {
  agent = record (s.agent) { receive_available = true };
  receive_releases = s.receive_releases - 1;
}

unfoldable pub acquire_event : System → System
acquire_event s = record s {
  agent = record (s.agent) { event_available = false };
  event_claims = s.event_claims + 1;
}

unfoldable pub acquire_receive : System → System
acquire_receive s = record s {
  agent = record (s.agent) { receive_available = false };
  receive_claims = s.receive_claims + 1;
}

unfoldable pub start_drain : System → System
start_drain s = record s {
  agent = clear_event s.agent;
  event_claims = s.event_claims - 1;
  drainers = s.drainers + 1;
}

pub data Step (s : System) : System → Type 0 where
  queues : (e : AgentEvent) → Step s (leave s (queue_event e s.agent))
  receives : (bytes : List ℕ) → Step s (leave s (queue_receive bytes s.agent))
  releases_event : 0 < s.event_releases → Step s (release_event s)
  releases_receive : 0 < s.receive_releases → Step s (release_receive s)
  polls : (max_events : ℕ) → Step s (leave_with s (drain_events max_events s.agent))
  acquires_event : s.agent.event_available ≡ true → Step s (acquire_event s)
  clears : 0 < s.event_claims → Step s (start_drain s)
  drains :
      (max_events : ℕ)
      → 0 < s.drainers
      → Step s
          (leave_with (record s { drainers = s.drainers - 1 }) (drain_events max_events s.agent))
  pops : Step s (leave_with s (pop_receive s.agent))
  acquires_receive : s.agent.receive_available ≡ true → Step s (acquire_receive s)
  claims :
      0 < s.receive_claims
      → Step s
          (leave_with (record s { receive_claims = s.receive_claims - 1 }) (claim_receive s.agent))
  sets_sink :
      (d : DataSink) (a : Agent) → set_sink d s.agent ≡ some a → Step s (record s { agent = a })
  clears_sink : (d : DataSink) → Step s (record s { agent = clear_sink d s.agent })
  closes : Step s (record s { agent = mark_closed s.agent })
  destroys : Step s (record s { agent = destroy_juice s.agent })

pub data Reach (s : System) : System → Type 0 where
  here : Reach s s
  next : {t u : System} → Reach s t → Step t u → Reach s u

-- Each flag stands for one place where its wake-up is; and something queued is signalled, or somebody
-- is about to look.
pub record IsValid (s : System) : Type 0 where
  pub one_event :
      count s.agent.event_available + s.event_releases + s.event_claims
      ≡ count s.agent.event_signaled
  pub one_receive :
      count s.agent.receive_available + s.receive_releases + s.receive_claims
      ≡ count s.agent.receive_signaled
  pub events_noticed :
      is_empty s.agent.events ≡ false → s.agent.event_signaled ≡ false → 0 < s.drainers
  pub receives_noticed :
      is_empty s.agent.receives ≡ false → s.agent.event_signaled ≡ false → 0 < s.drainers
  pub receive_noticed : is_empty s.agent.receives ≡ false → s.agent.receive_signaled ≡ true
