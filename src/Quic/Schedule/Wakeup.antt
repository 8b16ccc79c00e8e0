-- ===== src/Quic/Schedule/Wakeup.antt =====
-- The scheduling of native/quic/Connection.cpp and native/core/Worker.cpp: the places of a connection,
-- and the waking of its worker.
use ffl_p2p.Prelude.{ℕ, ◌+◌, ◌<◌, ◌≡◌, ◌⊎◌, Bool, true, false, arith}
use ffl_p2p.Quic.Schedule.{
  ScheduleState, idle, processing, WorkerState, waiting, holding, running, finished, rescheduling,
  enqueuing, Runtime, start, push_operation, exchange, schedule_if_idle, enter_deque, set_ready,
  pop_connection, wake, begin_processing, pop_operation, finish_processing, look_again, reschedule,
  reenter_deque, Step, Reach,
}

-- Who holds the right to put the connection into the deque, or to run it.
abbrev pub held : WorkerState → ℕ
held holding = 1
held running = 1
held enqueuing = 1
held _ = 0

abbrev pub scheduled : ScheduleState → ℕ
scheduled idle = 0
scheduled _ = 1

abbrev pub is_running : WorkerState → Bool
is_running running = true
is_running _ = false

abbrev pub is_processing : ScheduleState → Bool
is_processing processing = true
is_processing _ = false

-- The worker is between the store of Idle and the end of its look at the queue.
abbrev pub rechecks : WorkerState → ℕ
rechecks finished = 1
rechecks rescheduling = 1
rechecks _ = 0

abbrev pub sleeps : WorkerState → Bool
sleeps waiting = true
sleeps _ = false

pub record IsValid (s : Runtime) : Type 0 where
  pub single : s.entries + s.won + held s.worker ≡ scheduled s.schedule
  pub runs : is_running s.worker ≡ is_processing s.schedule
  pub noticed : s.schedule ≡ idle → 0 < s.operations → 0 < s.pushed + rechecks s.worker
  pub awake : sleeps s.worker ≡ true → 0 < s.entries → (s.signaled ≡ true) ⊎ (0 < s.setting)

start-IsValid : IsValid start
unfolding start
start-IsValid = ground arith

Step-IsValid : {s t : Runtime} → Step s t → IsValid s → IsValid t
unfolding push_operation exchange schedule_if_idle enter_deque set_ready pop_connection wake
    begin_processing pop_operation finish_processing look_again reschedule reenter_deque
Step-IsValid Step.pushes v = ground arith
Step-IsValid (Step.schedules h) v = ground arith
Step-IsValid (Step.enters h) v = ground arith
Step-IsValid (Step.sets h) v = ground arith
Step-IsValid Step.other_sets v = ground arith
Step-IsValid (Step.other_runs h) v = v
Step-IsValid (Step.pops h) v = ground arith
Step-IsValid (Step.wakes h e) v = ground arith
Step-IsValid (Step.expires h) v = ground arith
Step-IsValid (Step.begins h) v = ground arith
Step-IsValid (Step.processes h e) v = ground arith
Step-IsValid (Step.finishes h) v = ground arith
Step-IsValid (Step.looks h) v = ground arith
Step-IsValid (Step.reschedules h) v = ground arith
Step-IsValid (Step.reenters h) v = ground arith
Step-IsValid (Step.signals h) v = ground arith

pub Reach-IsValid : {s : Runtime} → Reach start s → IsValid s
Reach-IsValid Reach.here = start-IsValid
Reach-IsValid (Reach.next r st) = Step-IsValid st (Reach-IsValid r)

-- In every reachable state the connection has exactly one place while its schedule state says that it
-- has one, and none while it is idle: an entry in the deque, a thread or the worker on the way to put
-- it there, or the worker that holds or runs it. And it is run exactly while the state is Processing.
pub scheduled_once :
    {s : Runtime}
    → Reach start s
    → (s.entries + s.won + held s.worker ≡ scheduled s.schedule)
      × (is_running s.worker ≡ is_processing s.schedule)
scheduled_once r = let v = Reach-IsValid r in (v.single, v.runs)

-- Where no other thread is about to schedule and the worker sleeps, a queued operation has put the
-- connection into the deque, and its event is set or about to be.
pub sleeping_is_scheduled :
    {s : Runtime}
    → Reach start s
    → s.worker ≡ waiting
    → 0 < s.operations
    → s.pushed ≡ 0
    → s.won ≡ 0
    → (s.entries ≡ 1) × ((s.signaled ≡ true) ⊎ (0 < s.setting))
sleeping_is_scheduled {s} r asleep some_work p w =
    let v = Reach-IsValid r in
    let one = v.single in
    let seen = v.noticed in
    let up = v.awake in
    let entry : s.entries ≡ 1 = ground arith in (entry, up (ground arith) (omega arith))
