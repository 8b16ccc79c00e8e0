-- ===== src/Agent.antt =====
-- The agent object of native/P2P.c, as far as it is not Python's: its two queues, the two binary
-- wake-ups over thread locks, and the data sink. Each function here is one section under the agent's
-- lock, and says which wake-ups its thread releases once it has left the lock. Memory is never
-- exhausted. A wake-up's lock is `available` while it is not held.
pub mod Queues
pub mod Wakeups
pub mod Lifetime
pub mod Methods
mod Tests
use ffl_p2p.Prelude.{
  ℕ, zero, suc, Bool, true, false, not, ◌&&◌, ◌||◌, Option, none, some, List, [], ◌∷◌, ◌++◌, map,
  String, ◌==◌, if◌then◌else◌, is_empty, is_some,
}
use ffl_p2p.Quic.Library.{JuiceCode}

pub data AgentEvent : Type 0 where
  state : ℕ → AgentEvent
  candidate : String → AgentEvent
  gathering_done : AgentEvent

-- The sink's function and its pointer.
pub record DataSink : Type 0 where
  pub callback : ℕ
  pub user : ℕ

pub record Agent : Type 0 where
  pub juice : Bool
  pub closed : Bool
  pub data_sink : Option DataSink
  pub events : List AgentEvent
  pub receives : List (List ℕ)
  pub event_signaled : Bool
  pub receive_signaled : Bool
  pub event_available : Bool
  pub receive_available : Bool

-- `initializeAgent`: both wake-ups are taken.
abbrev pub new_agent : Agent
new_agent = record {
  juice = true;
  closed = false;
  data_sink = none;
  events = [];
  receives = [];
  event_signaled = false;
  receive_signaled = false;
  event_available = false;
  receive_available = false;
}

-- What a thread has to release after the lock.
pub record Signals : Type 0 where
  pub event : Bool
  pub receive : Bool

abbrev no_signals : Signals
no_signals = record { event = false; receive = false }

-- `queueEvent`
unfoldable pub queue_event : AgentEvent → Agent → Agent × Signals
queue_event e a = if a.closed then (a, no_signals) else (
  record a { events = a.events ++ e ∷ []; event_signaled = true },
  record { event = not a.event_signaled; receive = false },
)

-- `onState`
unfoldable pub on_state : ℕ → Agent → Agent × Signals
unfolding queue_event
on_state n a = queue_event (AgentEvent.state n) a

-- `onCandidate`, where a null pointer gives the empty text.
unfoldable pub on_candidate : Option String → Agent → Agent × Signals
unfolding queue_event
on_candidate none a = queue_event (AgentEvent.candidate "") a
on_candidate (some sdp) a = queue_event (AgentEvent.candidate sdp) a

-- `onGatheringDone`
unfoldable pub on_gathering_done : Agent → Agent × Signals
unfolding queue_event
on_gathering_done a = queue_event AgentEvent.gathering_done a

-- `queueReceive`
unfoldable pub queue_receive : List ℕ → Agent → Agent × Signals
queue_receive bytes a = if a.closed then (a, no_signals) else (
  record a { receives = a.receives ++ bytes ∷ []; receive_signaled = true; event_signaled = true },
  record { event = not a.event_signaled; receive = not a.receive_signaled },
)

-- `onReceive` under its first lock: the sink that takes the datagram, if there is one. Otherwise the
-- thread leaves the lock and goes on with `queue_receive`.
unfoldable pub sink_for : Agent → Option DataSink
sink_for a = if a.closed then none else a.data_sink

-- `setFFLP2PAgentNativeDataSink`, where neither pointer is null: `none` is its -1.
unfoldable pub set_sink : DataSink → Agent → Option Agent
set_sink s a =
    if a.closed || not a.juice || is_some a.data_sink
    then none
    else some (record a { data_sink = some s })

abbrev same_sink : Option DataSink → DataSink → Bool
same_sink none s = false
same_sink (some t) s = t.callback == s.callback && t.user == s.user

-- `clearFFLP2PAgentNativeDataSink`
unfoldable pub clear_sink : DataSink → Agent → Agent
clear_sink s a = if same_sink a.data_sink s then record a { data_sink = none } else a

-- `sendFFLP2PAgentNative` over `sendFFLP2PJuice`; `invalid` is JUICE_ERR_INVALID.
unfoldable pub send_native :
    {W : Type 0} (invalid : JuiceCode) (juice_send : List ℕ → W → W × JuiceCode)
    → Agent
    → List ℕ
    → W
    → W × JuiceCode
send_native invalid juice_send a bytes w =
    if a.closed || not a.juice then (w, invalid) else juice_send bytes w

-- `sendFFLP2PAgentNativeAggregateProgress` over its function of libjuice, which gives the size sent
-- with its result; `none` is a null pointer for that size.
unfoldable pub send_native_aggregate :
    {W : Type 0} (invalid : JuiceCode) (juice_send : List ℕ → ℕ → W → W × JuiceCode × ℕ)
    → Agent
    → List ℕ
    → ℕ
    → Option ℕ
    → W
    → W × JuiceCode × Option ℕ
send_native_aggregate invalid juice_send a bytes segment_size none w = (w, invalid, none)
send_native_aggregate invalid juice_send a bytes segment_size (some sent) w =
    let (w', code, sent') = juice_send bytes segment_size w in
    if a.closed || not a.juice then (w, invalid, some sent) else (w', code, some sent')

-- `PyThread_acquire_lock(receiveAvailable, NOWAIT_LOCK)` clears the flag where it gets the lock.
unfoldable pub rearm_receive : Agent → Agent
rearm_receive a =
    if a.receive_signaled && a.receive_available
    then record a { receive_signaled = false; receive_available = false }
    else a

unfoldable pub rearm_event : Agent → Agent
rearm_event a =
    if a.event_signaled && a.event_available
    then record a { event_signaled = false; event_available = false }
    else a

-- The wake-up is signalled again while something is left.
unfoldable pub signal_receive : Agent → Agent × Bool
signal_receive a =
    if not (is_empty a.receives) && not a.receive_signaled
    then (record a { receive_signaled = true }, true)
    else (a, false)

unfoldable pub signal_event : Agent → Agent × Bool
signal_event a =
    if (not (is_empty a.events) || not (is_empty a.receives)) && not a.event_signaled
    then (record a { event_signaled = true }, true)
    else (a, false)

abbrev popped : List (List ℕ) → Agent → Option (List ℕ) × Agent × Signals
popped [] a = (none, a, no_signals)
popped (bytes ∷ rest) a =
    let (b, again) = signal_receive (rearm_receive (record a { receives = rest })) in
    (some bytes, b, record { event = false; receive = again })

-- `popReceiveLocked`
unfoldable pub pop_receive : Agent → Option (List ℕ) × Agent × Signals
unfolding signal_receive rearm_receive
pop_receive a = popped a.receives a

-- The two loops of `drainEvents`: what was taken, what is left, and what is left of `max_events`.
unfoldable pub drain_queue : {A : Type 0} → ℕ → List A → List A × List A × ℕ
drain_queue zero xs = ([], xs, zero)
drain_queue (suc n) [] = ([], [], suc n)
drain_queue (suc n) (x ∷ xs) = let (taken, rest, room) = drain_queue n xs in (x ∷ taken, rest, room)

pub record Drained : Type 0 where
  pub events : List AgentEvent
  pub receives : List (List ℕ)

-- `drainEvents` under its lock.
unfoldable pub drain_events : ℕ → Agent → Drained × Agent × Signals
unfolding signal_event signal_receive rearm_event rearm_receive drain_queue
drain_events max_events a =
    let b = rearm_event a in
    let (events, later_events, room) = drain_queue max_events b.events in
    let (receives, later_receives, room') = drain_queue room b.receives in
    let c = record b { events = later_events; receives = later_receives } in
    let d = if is_empty receives then c else rearm_receive c in
    let (e, receive_again) = signal_receive d in
    let (f, event_again) = signal_event e in
    (
      record { events = events; receives = receives },
      f,
      record { event = event_again; receive = receive_again },
    )

-- What Python gets of an event: its "type" and its "value".
pub data PythonValue : Type 0 where
  integer : ℕ → PythonValue
  text : String → PythonValue
  nothing : PythonValue
  bytes : List ℕ → PythonValue

-- `convertEventToPython`
unfoldable pub convert_event : AgentEvent → String × PythonValue
convert_event (AgentEvent.state n) = ("state", integer n)
convert_event (AgentEvent.candidate sdp) = ("candidate", text sdp)
convert_event AgentEvent.gathering_done = ("gatheringDone", nothing)

-- `convertReceiveToPython`
unfoldable pub convert_receive : List ℕ → String × PythonValue
convert_receive content = ("receive", bytes content)

-- The end of `drainEvents`, outside the lock.
unfoldable pub convert_drained : Drained → List (String × PythonValue)
unfolding convert_event convert_receive
convert_drained d = map convert_event d.events ++ map convert_receive d.receives

-- `closeAgent` under its lock.
unfoldable pub mark_closed : Agent → Agent
mark_closed a = if a.closed then a else record a { closed = true; data_sink = none }

-- The rest of `closeAgent`, which holds no lock: `destroyFFLP2PJuice`.
unfoldable pub destroy_juice : Agent → Agent
destroy_juice a = record a { juice = false }

-- `waitForAgentEvents` after it got its wake-up, and the wait of `receiveFFLP2PAgentNative` after its.
unfoldable pub clear_event : Agent → Agent
clear_event a = record a { event_signaled = false }

unfoldable pub claim_receive : Agent → Option (List ℕ) × Agent × Signals
claim_receive a = pop_receive (record a { receive_signaled = false })
