-- ===== src/Quic/Schedule/Tests.antt =====
-- A run of two threads: the worker finds nothing and waits, and another thread queues an operation.
use ffl_p2p.Prelude.{◌+◌, ◌<◌, ◌≤◌, ◌≡◌, refl, ◌⊎◌, true, arith}
use ffl_p2p.Quic.Schedule.{
  Runtime, start, Reach, Step, push_operation, schedule_if_idle, exchange, enter_deque,
  pop_connection,
}
use ffl_p2p.Quic.Schedule.Wakeup.{
  scheduled_once, sleeping_is_scheduled, held, scheduled, is_running, is_processing,
}
use ffl_p2p.Quic.Schedule.Progress.{distance, next_actor, Acts, work_advances}

abbrev asleep : Runtime
asleep = pop_connection start

abbrev woken : Runtime
woken = enter_deque (schedule_if_idle (push_operation asleep))

woken-Reach : Reach start woken
unfolding start pop_connection push_operation schedule_if_idle exchange
woken-Reach =
    Reach.next
      (Reach.next (Reach.next (Reach.next Reach.here (Step.pops refl)) Step.pushes)
        (Step.schedules (omega arith)))
      (Step.enters (omega arith))

scheduled_once_example :
    (woken.entries + woken.won + held woken.worker ≡ scheduled woken.schedule)
    × (is_running woken.worker ≡ is_processing woken.schedule)
scheduled_once_example = scheduled_once woken-Reach

sleeping_is_scheduled_example :
    (woken.entries ≡ 1) × ((woken.signaled ≡ true) ⊎ (0 < woken.setting))
unfolding start pop_connection push_operation schedule_if_idle exchange enter_deque
sleeping_is_scheduled_example = sleeping_is_scheduled woken-Reach refl (omega arith) refl refl

work_advances_example :
    (distance woken ≤ 9)
    × (0 < distance woken)
    × ((t : Runtime) × Acts woken (next_actor (distance woken)) t × (distance t < distance woken))
    × ((t : Runtime) → Step woken t → (distance t ≤ distance woken) × (0 < t.operations))
unfolding start pop_connection push_operation schedule_if_idle exchange enter_deque
work_advances_example = work_advances woken-Reach (omega arith) (λ h. cc)
