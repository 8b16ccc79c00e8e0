-- ===== src/Agent/Lifetime.antt =====
-- The resources of an agent object: initializeAgent, closeAgent and deallocateAgent of native/P2P.c,
-- and createFFLP2PJuice and destroyFFLP2PJuice of native/Juice.c. `Ledger` counts what was allocated
-- and what was freed apart, so that a second free shows.
pub mod Balanced
use ffl_p2p.Prelude.{
  ℕ, ◌+◌, ◌-◌, min, Bool, true, false, not, ◌&&◌, ◌||◌, Option, none, some, ltb, if◌then◌else◌,
  is_some, Result, ok, err,
}
use ffl_p2p.Quic.Library.{message}
use ffl_p2p.Python.Credentials.{PyError, runtime_error, value_error, raised}

pub record Ledger : Type 0 where
  pub locks : ℕ
  pub locks_freed : ℕ
  pub juices : ℕ
  pub juices_freed : ℕ
  pub datapaths : ℕ
  pub datapaths_freed : ℕ
  pub agents : ℕ
  pub agents_freed : ℕ
  pub nodes : ℕ
  pub nodes_freed : ℕ

-- The object's pointers, each as whether it is not null, and how many nodes its two queues have. A
-- `juice` that is there has its libjuice agent and its datapath.
pub record Handles : Type 0 where
  pub lock : Bool
  pub event_available : Bool
  pub receive_available : Bool
  pub juice : Bool
  pub closed : Bool
  pub queued : ℕ

-- As `createP2PObject` gives it.
abbrev pub new_handles : Handles
new_handles = record {
  lock = false;
  event_available = false;
  receive_available = false;
  juice = false;
  closed = false;
  queued = 0;
}

-- Which allocations succeed: of the three locks, of the FFLP2PJuice, of its datapath and its agent.
pub record Allocations : Type 0 where
  pub lock : Bool
  pub event_available : Bool
  pub receive_available : Bool
  pub juice : Bool
  pub datapath : Bool
  pub agent : Bool

abbrev pub one : Bool → ℕ
one b = if b then 1 else 0

-- `createFFLP2PJuice` with a configuration.
unfoldable pub create_juice : Allocations → Ledger → Ledger × Bool
create_juice a l =
    if not a.juice
    then (l, false)
    else if not a.datapath
    then (record l { juices = l.juices + 1; juices_freed = l.juices_freed + 1 }, false)
    else if not a.agent
    then (
      record l {
        juices = l.juices + 1;
        juices_freed = l.juices_freed + 1;
        datapaths = l.datapaths + 1;
        datapaths_freed = l.datapaths_freed + 1;
      },
      false,
    )
    else (
      record l { juices = l.juices + 1; datapaths = l.datapaths + 1; agents = l.agents + 1 },
      true,
    )

-- `destroyFFLP2PJuice` of one that is not null.
unfoldable pub destroy_ffl_juice : Ledger → Ledger
destroy_ffl_juice l = record l {
  agents_freed = l.agents_freed + 1;
  datapaths_freed = l.datapaths_freed + 1;
  juices_freed = l.juices_freed + 1;
}

-- The parsed ports.
pub record AgentArguments : Type 0 where
  pub stun_port : ℕ
  pub port_begin : ℕ
  pub port_end : ℕ

abbrev pub maximum_port : ℕ
maximum_port = 65535

-- The three locks, those that there are.
abbrev pub allocate_locks : Allocations → Ledger → Ledger
allocate_locks a l = record l {
  locks = l.locks + one a.lock + one a.event_available + one a.receive_available;
}

abbrev pub free_locks : Bool → Bool → Bool → Ledger → Ledger
free_locks lock event receive l = record l {
  locks_freed = l.locks_freed + one lock + one event + one receive;
}

abbrev pub have_locks : Allocations → Bool
have_locks a = a.lock && a.event_available && a.receive_available

abbrev pub Initialized : Type 0
Initialized = Handles × Ledger × Result PyError (Unit {0})

abbrev pub with_juice : Handles → Ledger × Bool → Initialized
with_juice h (l, false) = (
  record h { lock = false; event_available = false; receive_available = false; juice = false },
  free_locks true true true l,
  err (runtime_error (message "createFFLP2PJuice failed")),
)
with_juice h (l, true) = (
  record h { lock = true; event_available = true; receive_available = true; juice = true },
  l,
  ok tt,
)

-- After the allocation of the locks.
abbrev pub with_locks : Allocations → Handles → Ledger → Initialized
with_locks a h l =
    if not (have_locks a)
    then (
      record h { lock = false; event_available = false; receive_available = false },
      free_locks a.lock a.event_available a.receive_available l,
      err raised,
    )
    else with_juice h (create_juice a l)

-- `initializeAgent`; `none` stands for arguments that could not be parsed.
unfoldable pub initialize_agent :
    Option AgentArguments → Allocations → Handles → Ledger → Initialized
initialize_agent none a h l = (h, l, err raised)
initialize_agent (some args) a h l =
    if ltb maximum_port args.stun_port
      || (ltb maximum_port args.port_begin || ltb maximum_port args.port_end)
    then (h, l, err (value_error "port out of range"))
    else with_locks a h (allocate_locks a l)

abbrev pub without_juice : Handles → Ledger → Handles × Ledger
without_juice h l = if h.juice then (record h { juice = false }, destroy_ffl_juice l) else (h, l)

-- `closeAgent`
unfoldable pub close_agent : Handles → Ledger → Handles × Ledger
close_agent h l = without_juice (record h { closed = h.closed || h.lock }) l

-- `queueEvent` of a node that was allocated, and `queueReceive` where `receive` is true: a closed
-- object frees it at once.
unfoldable pub queue_node : Bool → Handles → Ledger → Handles × Ledger
queue_node receive h l =
    if not h.lock || (not h.event_available || (receive && not h.receive_available || h.closed))
    then (h, record l { nodes = l.nodes + 1; nodes_freed = l.nodes_freed + 1 })
    else (record h { queued = h.queued + 1 }, record l { nodes = l.nodes + 1 })

-- `drainEvents` and `popReceiveLocked` take `n` nodes or all that there are, and free them.
unfoldable pub take_nodes : ℕ → Handles → Ledger → Handles × Ledger
take_nodes n h l =
    let k = min n h.queued in
    (record h { queued = h.queued - k }, record l { nodes_freed = l.nodes_freed + k })

-- The loops of `deallocateAgent` that free what is still queued; without a lock there are none.
unfoldable pub free_nodes : Handles → Ledger → Handles × Ledger
free_nodes h l =
    if h.lock
    then (record h { queued = 0 }, record l { nodes_freed = l.nodes_freed + h.queued })
    else (h, l)

-- `deallocateAgent`, up to the object's memory.
unfoldable pub deallocate_agent : Handles → Ledger → Handles × Ledger
deallocate_agent h l =
    let (g, m) = without_juice (record h { closed = h.closed || h.lock }) l in
    let (f, k) = free_nodes g m in
    (
      record f { lock = false; event_available = false; receive_available = false },
      free_locks h.lock h.event_available h.receive_available k,
    )
