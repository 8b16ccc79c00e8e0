-- ===== src/Quic/Schedule.antt =====
-- How a connection comes to its worker: Connection::queueOperation, scheduleIfIdle,
-- beginWorkerProcessing and finishWorkerProcessing, Worker::queueConnection, popConnection and the
-- loop of Worker::run, Event::set and waitUntil. Each step is one atomic access of the source, and
-- any number of threads stand between two of them. Other connections of the worker show only in
-- that they set and consume its event.
pub mod Wakeup
pub mod Progress
mod Tests
use ffl_p2p.Prelude.{
  ℕ, zero, suc, ◌+◌, ◌-◌, ◌<◌, ◌≡◌, ◌≢◌, Bool, true, false, ltb, ◌==◌, if◌then◌else◌,
}

pub data ScheduleState : Type 0 where
  idle queued processing : ScheduleState

-- Where the worker stands in `run`.
pub data WorkerState : Type 0 where
  looking : WorkerState
  waiting : WorkerState
  holding : WorkerState
  running : WorkerState
  finished : WorkerState
  rescheduling : WorkerState
  enqueuing : WorkerState
  signalling : WorkerState

-- `operations` counts operationQueue_, `entries` the places of this connection in connections_.
-- `pushed`, `won` and `setting` count the threads that have pushed an operation and not yet tried to
-- schedule, that have won and not yet entered connections_, that have entered and not yet set ready_.
pub record Runtime : Type 0 where
  pub operations : ℕ
  pub schedule : ScheduleState
  pub entries : ℕ
  pub signaled : Bool
  pub pushed : ℕ
  pub won : ℕ
  pub setting : ℕ
  pub worker : WorkerState

unfoldable pub start : Runtime
start = record {
  operations = 0;
  schedule = idle;
  entries = 0;
  signaled = false;
  pushed = 0;
  won = 0;
  setting = 0;
  worker = looking;
}

-- operationQueue_.push
pub push_operation : Runtime → Runtime
push_operation s = record s { operations = s.operations + 1; pushed = s.pushed + 1 }

-- scheduleState_.compare_exchange_strong(Idle, Queued): whether it was exchanged, and what it is.
unfoldable pub exchange : ScheduleState → Bool × ScheduleState
exchange idle = (true, queued)
exchange queued = (false, queued)
exchange processing = (false, processing)

-- `scheduleIfIdle` of a thread that has pushed an operation.
pub schedule_if_idle : Runtime → Runtime
schedule_if_idle s =
    let (exchanged, state) = exchange s.schedule in
    record s {
      schedule = state;
      pushed = s.pushed - 1;
      won = if exchanged then s.won + 1 else s.won;
    }

-- `queueConnection`: first the deque, then the event.
pub enter_deque : Runtime → Runtime
enter_deque s = record s { entries = s.entries + 1; won = s.won - 1; setting = s.setting + 1 }

pub set_ready : Runtime → Runtime
set_ready s = record s { signaled = true; setting = s.setting - 1 }

-- `popConnection`, as it meets this connection or nothing.
pub pop_connection : Runtime → Runtime
pop_connection s =
    if ltb 0 s.entries
    then record s { entries = s.entries - 1; worker = holding }
    else record s { worker = waiting }

-- `Event::waitUntil` returns: by the event, which it resets, or at the deadline.
pub wake : Runtime → Runtime
wake s = record s { signaled = false; worker = looking }

pub begin_processing : Runtime → Runtime
begin_processing s = record s { schedule = processing; worker = running }

pub pop_operation : Runtime → Runtime
pop_operation s = record s { operations = s.operations - 1 }

-- `finishWorkerProcessing`: the store, the look at the queue, and `scheduleIfIdle`.
pub finish_processing : Runtime → Runtime
finish_processing s = record s { schedule = idle; worker = finished }

pub look_again : Runtime → Runtime
look_again s = record s { worker = if s.operations == 0 then looking else rescheduling }

pub reschedule : Runtime → Runtime
reschedule s =
    let (exchanged, state) = exchange s.schedule in
    record s { schedule = state; worker = if exchanged then enqueuing else looking }

pub reenter_deque : Runtime → Runtime
reenter_deque s = record s { entries = s.entries + 1; worker = signalling }

pub data Step (s : Runtime) : Runtime → Type 0 where
  pushes : Step s (push_operation s)
  schedules : 0 < s.pushed → Step s (schedule_if_idle s)
  enters : 0 < s.won → Step s (enter_deque s)
  sets : 0 < s.setting → Step s (set_ready s)
  other_sets : Step s (record s { signaled = true })
  other_runs : s.worker ≡ looking → Step s s
  pops : s.worker ≡ looking → Step s (pop_connection s)
  wakes : s.worker ≡ waiting → s.signaled ≡ true → Step s (wake s)
  expires : s.worker ≡ waiting → Step s (record s { worker = looking })
  begins : s.worker ≡ holding → Step s (begin_processing s)
  processes : s.worker ≡ running → 0 < s.operations → Step s (pop_operation s)
  finishes : s.worker ≡ running → Step s (finish_processing s)
  looks : s.worker ≡ finished → Step s (look_again s)
  reschedules : s.worker ≡ rescheduling → Step s (reschedule s)
  reenters : s.worker ≡ enqueuing → Step s (reenter_deque s)
  signals : s.worker ≡ signalling → Step s (record s { signaled = true; worker = looking })

pub data Reach (s : Runtime) : Runtime → Type 0 where
  here : Reach s s
  next : {t u : Runtime} → Reach s t → Step t u → Reach s u
