-- ===== src/Core/Workers/Loop.antt =====
-- Worker::run of native/core/Worker.cpp over all connections of a worker, with processTimers, and
-- what Connection::queueOperation, scheduleIfIdle, beginWorkerProcessing and finishWorkerProcessing
-- (native/quic/Connection.cpp) do in it. An iteration is one step here; how the threads' accesses
-- come between each other is modelled in Quic.Schedule. `outside` is what each connection meets.
pub mod Places
pub mod Expiries
pub mod Turns
pub mod Deadline
pub mod Ending
use ffl_p2p.Prelude.{
  ℕ, Bool, true, false, not, ◌&&◌, Option, none, some, List, [], ◌∷◌, ◌++◌, map, leb, ◌==◌,
  if◌then◌else◌, is_empty,
}
use ffl_p2p.Quic.Library.{Outside, message}
use ffl_p2p.Quic.Schedule.{ScheduleState, idle, processing, exchange}
use ffl_p2p.Quic.Connection.{
  Connection, Operation, timer_expired, internal_operation, is_shutdown, queue_operation,
}
use ffl_p2p.Quic.Connection.Flush.{AggregateWriter}
use ffl_p2p.Quic.Connection.Operations.{process_operations, get_next_expiry, fail_from_runtime}
use ffl_p2p.Core.TimerWheel
use ffl_p2p.Core.TimerWheel.{TimerWheel, update, remove, take_expired}

pub record Loop (W : Type 0) : Type 0 where
  pub connections : ℕ → Connection
  pub outside : ℕ → W
  pub schedule : ℕ → ScheduleState
  pub queue : List ℕ
  pub wheel : TimerWheel

abbrev pub set_at {ℓ} : {A : Type ℓ} → ℕ → A → (ℕ → A) → ℕ → A
set_at i x f k = if k == i then x else f k

abbrev pub operation_budget : ℕ
operation_budget = 64

module _ {W : Type 0} where
  -- With the result of the exchange; the winner enters the deque.
  abbrev pub schedule_as : ℕ → Bool × ScheduleState → Loop W → Loop W
  schedule_as i (true, state) l = record l {
    schedule = set_at i state l.schedule;
    queue = l.queue ++ i ∷ [];
  }
  schedule_as i (false, state) l = record l { schedule = set_at i state l.schedule }

  -- `scheduleIfIdle` with `queueConnection`.
  unfoldable pub schedule_if_idle : ℕ → Loop W → Loop W
  schedule_if_idle i l = schedule_as i (exchange (l.schedule i)) l

  abbrev pub with_operation : ℕ → Operation → Loop W → Loop W
  with_operation i o l = record l {
    connections = set_at i (queue_operation (l.connections i) o) l.connections;
  }

  -- `queueOperation` of any thread.
  unfoldable pub queue_at : ℕ → Operation → Loop W → Loop W
  queue_at i o l =
      if (l.connections i).stopped && not (is_shutdown o.type)
      then with_operation i o l
      else schedule_if_idle i (with_operation i o l)

  -- `queueTimerExpired`
  unfoldable pub queue_timer_at : ℕ → Loop W → Loop W
  queue_timer_at i l =
      if (l.connections i).stopped then l else queue_at i (internal_operation timer_expired) l

  unfoldable pub expire_all : List ℕ → Loop W → Loop W
  expire_all [] l = l
  expire_all (i ∷ is) l = expire_all is (queue_timer_at i l)

  -- `finishWorkerProcessing`
  unfoldable pub finish_at : ℕ → Loop W → Loop W
  finish_at i l =
      let m = record l { schedule = set_at i idle l.schedule } in
      if is_empty (l.connections i).operations then m else schedule_if_idle i m

  -- The connections `is` fail, one after the other.
  unfoldable pub drained : List ℕ → Loop W → Loop W
  drained [] l = l
  drained (i ∷ is) l = drained is (record l {
    connections =
        set_at i (fail_from_runtime (l.connections i) (message "QUIC worker stopped"))
          l.connections;
  })

  -- What follows the loop: the connections that are still in the deque fail.
  unfoldable pub drain_connections : Loop W → Loop W
  drain_connections l = drained l.queue (record l { queue = [] })

module _ {W : Type 0} (out : Outside W) (write_aggregate : AggregateWriter W)
    (alive : ℕ → Bool) where
  -- `processTimers`
  unfoldable pub process_timers : ℕ → Loop W → Loop W
  process_timers now l =
      let (expired, rest) = take_expired alive l.wheel now in
      expire_all expired (record l { wheel = rest })

  -- After `processOperations`: the timer, and the end of the processing.
  unfoldable pub settle : ℕ → W × Connection → Loop W → Loop W
  settle i (w, c) l = finish_at i (record l {
    connections = set_at i c l.connections;
    outside = set_at i w l.outside;
    wheel =
        if c.stopped
        then remove l.wheel i
        else update l.wheel i (get_next_expiry out write_aggregate c w);
  })

  abbrev pub settled : ℕ → Option (W × Connection) → Loop W → Option (Loop W)
  settled i none l = none
  settled i (some r) l = some (settle i r l)

  -- The turn of the connection `i`; `none` would be a turn that does not end.
  unfoldable pub process_at : ℕ → Loop W → Option (Loop W)
  process_at i l =
      settled i
        (process_operations out write_aggregate operation_budget (l.connections i) (l.outside i))
        (record l { schedule = set_at i processing l.schedule })

  -- `popConnection`; with an empty deque the worker waits.
  abbrev pub popped : List ℕ → Loop W → Option (Loop W)
  popped [] l = some l
  popped (i ∷ is) l = process_at i (record l { queue = is })

  abbrev pub timed : ℕ → Loop W → Loop W
  timed now l =
      if leb (TimerWheel.get_next_expiry alive l.wheel) now then process_timers now l else l

  -- One iteration of the loop.
  unfoldable pub iterate : ℕ → Loop W → Option (Loop W)
  iterate now l = let m = timed now l in popped m.queue m
