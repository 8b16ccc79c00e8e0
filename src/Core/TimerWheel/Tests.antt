-- ===== src/Core/TimerWheel/Tests.antt =====
-- Two timers, one of them due at 5.
use ffl_p2p.Prelude.{◌<◌, ◌≡◌, true, some, [], ◌∷◌, arith}
use ffl_p2p.Core.TimerWheel.{TimerWheel, update, get_next_expiry, take_expired}
use ffl_p2p.Core.TimerWheel.Expiry.{find, find-update, take_expired-get_next_expiry}

abbrev two_timers : TimerWheel
two_timers = record { connection = 1; expiry = 5 } ∷ record { connection = 2; expiry = 9 } ∷ []

find-update_example : find (update two_timers 1 7) 1 ≡ some 7
find-update_example = find-update two_timers 1 7 1

take_expired-get_next_expiry_example :
    5 < get_next_expiry (λ c. true) (take_expired (λ c. true) two_timers 5).1
take_expired-get_next_expiry_example =
    take_expired-get_next_expiry (λ c. true) two_timers 5 (omega arith)
