-- ===== src/Core/Workers/Tests.antt =====
-- Pools of workers, and the loop of one.
use ffl_p2p.Prelude.{
  ℕ, ◌≤◌, ◌<◌, ◌≡◌, refl, some, none, Option, List, [], ◌∷◌, ok, Bool, true, false, not, if_cases,
}
use ffl_p2p.Core.Workers.{
  parsed_count, parse_worker_count, worker_count, create_pool, assign_connection,
  maximum_worker_count,
}
use ffl_p2p.Core.Workers.Counts.{worker_count-assign_connection}
use ffl_p2p.Platform.Threads.{System, Thread, PosixReply, start_posix, join_posix}
use ffl_p2p.Platform.Threads.Owned.{start_posix-Started, join_posix-Joined}
use ffl_p2p.Core.Workers.Lifecycle.{Threading, construct_pool}
use ffl_p2p.Core.Workers.Lifecycle.Pools.{count, Succeeds}
use ffl_p2p.Core.Workers.Lifecycle.Whole.{ended, pool_returns_threads}
use ffl_p2p.Quic.Library.{wrote}
use ffl_p2p.Quic.Library.Sample.{quiet}
use ffl_p2p.Quic.Connection.{
  Role, flush_send, internal_operation, queue_operation, complete, notify_application,
  publish_application_state,
}
use ffl_p2p.Quic.Connection.Flush.{
  AggregateWriter, flush_packets, unless_held, write_packets, flush_aggregate, on_aggregate,
}
use ffl_p2p.Quic.Connection.Operations.{
  get_next_expiry, process_operations, process_queue, on_queue, on_processed, go_on, conclude,
  process_operation, process_type, process_send_flush,
}
use ffl_p2p.Quic.Connection.Creation.{new_connection}
use ffl_p2p.Quic.Schedule.{exchange}
use ffl_p2p.Core.TimerWheel.{update}
use ffl_p2p.Quic.Connection.Transport.{flush_pending_transport_send}
use ffl_p2p.Core.TimerWheel
use ffl_p2p.Core.Workers.Loop.{
  drain_connections, Loop, iterate, process_timers, settle, process_at, queue_at, schedule_if_idle,
  finish_at,
}
use ffl_p2p.Core.Workers.Loop.Expiries.{Sound}
use ffl_p2p.Core.Workers.Loop.Ending.{Over, drain_connections-Over}
use ffl_p2p.Core.Workers.Loop.Places
use ffl_p2p.Core.Workers.Loop.Turns.{iterate-Sound}
use ffl_p2p.Core.Workers.Loop.Deadline.{
  Made, new_loop, here, next, queues, iterates, new_loop-Sound, Reach-Sound, Reach-deadline,
}

worker_count-assign_connection_example :
    (0 < 3)
    × (3 ≤ maximum_worker_count)
    × (create_pool 3 ≡ ok (record { workers = 3; next_worker = 0 }))
    × ((assign_connection (record { workers = 3; next_worker = 4 })).0 < 3)
unfolding worker_count parse_worker_count parsed_count
worker_count-assign_connection_example =
    worker_count-assign_connection (λ text. some (3, [])) (some (51 ∷ [])) 3 4 refl

abbrev posix : Threading PosixReply ℕ
posix = record {
  start = start_posix;
  join = join_posix;
  start-Started = start_posix-Started;
  join-Joined = join_posix-Joined;
}

join_posix-Succeeds : (t : Thread) (s : System) → Succeeds (join_posix 0 t s)
unfolding join_posix
join_posix-Succeeds t s = if_cases Succeeds (not t.joinable) (λ h. tt) (λ h. tt)

-- The second thread cannot be created.
abbrev replies : List PosixReply
replies =
    record { attr_init = 0; set_stack = 0; create = 0; created = 8 }
    ∷ record { attr_init = 0; set_stack = 0; create = 11; created = 0 }
    ∷ []

abbrev one_thread : System
one_thread = record { live = 3 ∷ []; attributes = 1 }

pool_returns_threads_example :
    (s' : System) × (ended posix 0 (construct_pool posix 0 replies one_thread) ≡ some s')
    × ((k : ℕ) → count k s'.live ≡ count k (3 ∷ []))
    × (s'.attributes ≡ 1)
pool_returns_threads_example = pool_returns_threads posix 0 join_posix-Succeeds replies one_thread

abbrev nothing_to_write : AggregateWriter ℕ
nothing_to_write callback limit p w = (w, p, wrote [], 0)

abbrev clients : ℕ → Made
clients k = record { role = Role.client; certificate = 1 ∷ []; private_key = []; pool = 0 }

abbrev all_live : ℕ → Bool
all_live k = true

abbrev started : Loop ℕ
started = new_loop clients (λ k. 0)

-- A flush is queued for a connection, and the worker goes through its loop.
abbrev with_flush : Loop ℕ
with_flush = queue_at 2 (internal_operation flush_send) started

iterate-Sound_example :
    (m : Loop ℕ) × (iterate quiet nothing_to_write all_live 5 with_flush ≡ some m)
    × Sound quiet nothing_to_write all_live m
iterate-Sound_example = iterate-Sound quiet nothing_to_write all_live 5 with_flush (
    Reach-Sound quiet nothing_to_write all_live
      (next here (queues 2 (internal_operation flush_send)))
      (new_loop-Sound quiet nothing_to_write all_live clients (λ k. 0)))

abbrev value : Option (Loop ℕ) → Loop ℕ
value none = started
value (some l) = l

abbrev flushed : Loop ℕ
flushed = value (iterate quiet nothing_to_write all_live 5 with_flush)

Reach-deadline_example :
    ((flushed.connections 2).operations ≡ [])
    × (true ≡ true
        → (flushed.connections 2).stopped ≡ false
        → TimerWheel.get_next_expiry all_live flushed.wheel
          ≤ get_next_expiry quiet nothing_to_write (flushed.connections 2) (flushed.outside 2))
unfolding iterate process_at queue_at schedule_if_idle process_operations process_queue on_queue
    on_processed go_on conclude process_operation process_type process_send_flush flush_packets
    flush_pending_transport_send unless_held write_packets flush_aggregate on_aggregate
    publish_application_state new_connection exchange queue_operation settle finish_at
    process_timers complete notify_application TimerWheel.get_next_expiry TimerWheel.earliest
Reach-deadline_example =
    Reach-deadline quiet nothing_to_write all_live clients (λ k. 0) flushed 2
      (next (next here (queues 2 (internal_operation flush_send))) (iterates 5 flushed refl)) refl

drain_connections-Over_example :
    let d = (drain_connections with_flush).connections 2 in
    (0 < Places.count 2 with_flush.queue → Over (with_flush.connections 2).operations d)
    × (Places.count 2 with_flush.queue ≡ 0 → d ≡ with_flush.connections 2)
drain_connections-Over_example = drain_connections-Over with_flush 2
