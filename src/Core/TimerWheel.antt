-- ===== src/Core/TimerWheel.antt =====
-- TimerWheel of native/core/TimerWheel.cpp. A connection is a number, and the map an association list
-- with one entry for a connection. `alive` says which weak pointers still lead to a connection.
pub mod Expiry
pub mod Deadlines
mod Tests
use ffl_p2p.Prelude.{
  ℕ, Bool, true, false, not, ◌&&◌, Option, none, some, List, [], ◌∷◌, ltb, leb, ◌==◌, if◌then◌else◌,
}
use ffl_p2p.Quic.Library.{infinite_timestamp}

pub record Entry : Type 0 where
  pub connection : ℕ
  pub expiry : ℕ

abbrev pub TimerWheel : Type 0
TimerWheel = List Entry

pub remove : TimerWheel → ℕ → TimerWheel
remove [] c = []
remove (e ∷ es) c = let rest = remove es c in if e.connection == c then rest else e ∷ rest

pub update : TimerWheel → ℕ → ℕ → TimerWheel
update es c expiry =
    if expiry == infinite_timestamp
    then remove es c
    else record { connection = c; expiry = expiry } ∷ remove es c

module _ (alive : ℕ → Bool) where
  -- The loop over the entries, with `next` so far.
  unfoldable pub earliest : TimerWheel → ℕ → ℕ
  earliest [] next = next
  earliest (e ∷ es) next =
      earliest es (if alive e.connection && ltb e.expiry next then e.expiry else next)

  unfoldable pub get_next_expiry : TimerWheel → ℕ
  get_next_expiry es = earliest es infinite_timestamp

  -- The connections that are due, and the wheel without them and without those that are gone.
  pub take_expired : TimerWheel → ℕ → List ℕ × TimerWheel
  take_expired [] now = ([], [])
  take_expired (e ∷ es) now =
      let (expired, rest) = take_expired es now in
      if not (alive e.connection)
      then (expired, rest)
      else if ltb now e.expiry
      then (expired, e ∷ rest)
      else (e.connection ∷ expired, rest)
