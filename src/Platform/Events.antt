-- ===== src/Platform/Events.antt =====
-- Event of native/platform/Platform.cpp. Each function is one section under the event's mutex; a wait
-- for the condition shows by what it finds when it ends.
use ffl_p2p.Prelude.{ℕ, Bool, true, false, leb, ◌==◌, if◌then◌else◌}
use ffl_p2p.Quic.Library.{infinite_timestamp}

pub record Event : Type 0 where
  pub signaled : Bool

unfoldable pub set : Event → Event
set e = record { signaled = true }

unfoldable pub reset : Event → Event
reset e = record { signaled = false }

-- `wait` returns once the event is set.
unfoldable pub wait : Event → Event
wait e = record { signaled = false }

-- `wait_for` ends with the predicate's value.
abbrev pub awakened : Bool → Event → Event × Bool
awakened true e = (record { signaled = false }, true)
awakened false e = (e, false)

-- `waitUntil` at the time `current`; `found` says whether the event is set when `wait_for` ends. With
-- no deadline the call returns only once the event is set.
unfoldable pub wait_until : ℕ → ℕ → Bool → Event → Event × Bool
wait_until deadline current found e =
    if e.signaled
    then (record { signaled = false }, true)
    else if deadline == infinite_timestamp
    then (record { signaled = false }, true)
    else if leb deadline current
    then (e, false)
    else awakened found e
