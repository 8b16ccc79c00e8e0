-- ===== src/Core/TimerWheel/Expiry.antt =====
-- TimerWheel (native/core/TimerWheel.cpp): which timers are taken when.
use ffl_p2p.Prelude.{
  ℕ, ◌≡◌, ◌≤◌, ◌<◌, ◌⊎◌, inl, inr, Bool, true, not, ◌&&◌, Option, none, some, List, [], ◌∷◌, ltb,
  ◌==◌, if_cases, if◌then◌else◌, arith,
}
use ffl_p2p.Quic.Library.{infinite_timestamp}
use ffl_p2p.Core.TimerWheel.{TimerWheel, remove, update, earliest, get_next_expiry, take_expired}

-- The expiry that the wheel has for a connection.
unfoldable pub find : TimerWheel → ℕ → Option ℕ
find [] c = none
find (e ∷ es) c = let rest = find es c in if e.connection == c then some e.expiry else rest

abbrev pub expiry_of : ℕ → Option ℕ
expiry_of expiry = if expiry == infinite_timestamp then none else some expiry

pub find-remove :
    (es : TimerWheel) (c d : ℕ) → find (remove es c) d ≡ (if d == c then none else find es d)
unfolding find remove
find-remove [] c d = ground arith
find-remove (e ∷ es) c d = let ih = find-remove es c d in ground arith

-- `update` sets the connection's expiry, where it is not the infinite one, which removes it, and no
-- other's.
pub find-update :
    (es : TimerWheel) (c expiry d : ℕ)
    → find (update es c expiry) d ≡ (if d == c then expiry_of expiry else find es d)
unfolding find update
find-update es c expiry d = let e = find-remove es c d in ground arith

-- Every live entry of the list is due only after `now`.
pub Later : (ℕ → Bool) → ℕ → TimerWheel → Type 0
Later alive now [] = Unit
Later alive now (e ∷ es) = (alive e.connection ≡ true → now < e.expiry) × Later alive now es

module _ (alive : ℕ → Bool) where
  earliest-Later :
      (es : TimerWheel) (now next : ℕ)
      → now < next
      → Later alive now es
      → now < earliest alive es next
  unfolding Later earliest
  earliest-Later [] now next h l = h
  earliest-Later (e ∷ es) now next h (first, rest) =
      earliest-Later es now _
        (if_cases (λ n. now < n) (alive e.connection && ltb e.expiry next)
          (λ both. first (ground arith)) (λ neither. h))
        rest

  take_expired-Later : (es : TimerWheel) (now : ℕ) → Later alive now (take_expired alive es now).1
  unfolding Later take_expired
  take_expired-Later [] now = tt
  take_expired-Later (e ∷ es) now =
      let ih = take_expired-Later es now in
      if_cases (λ (r : List ℕ × TimerWheel). Later alive now r.1) (not (alive e.connection))
        (λ gone. ih)
        (λ lives.
          if_cases (λ (r : List ℕ × TimerWheel). Later alive now r.1) (ltb now e.expiry)
            (λ later. ((λ h. ground arith), ih)) (λ due. ih))

  -- After the timers that are due were taken, the next expiry is after `now`.
  pub take_expired-get_next_expiry :
      (es : TimerWheel) (now : ℕ)
      → now < infinite_timestamp
      → now < get_next_expiry alive (take_expired alive es now).1
  unfolding get_next_expiry
  take_expired-get_next_expiry es now h =
      earliest-Later _ now infinite_timestamp h (take_expired-Later es now)

  pub earliest-below : (es : TimerWheel) (next : ℕ) → earliest alive es next ≤ next
  unfolding earliest
  earliest-below [] next = omega arith
  earliest-below (e ∷ es) next =
      let ih =
        earliest-below es (if alive e.connection && ltb e.expiry next then e.expiry else next) in
      ground arith

  -- The entries of live connections, of which one is due no later than `now`.
  abbrev pub Pending : TimerWheel → ℕ → Type 0
  Pending [] now = ⊥
  Pending (e ∷ es) now = ((alive e.connection ≡ true) × (e.expiry ≤ now)) ⊎ Pending es now

  earliest-Pending :
      (es : TimerWheel) (now next : ℕ) → Pending es now → earliest alive es next ≤ now
  unfolding earliest
  earliest-Pending [] now next h = absurd h
  earliest-Pending (e ∷ es) now next (inl (lives, due)) =
      let below =
        earliest-below es (if alive e.connection && ltb e.expiry next then e.expiry else next) in
      ground arith
  earliest-Pending (e ∷ es) now next (inr h) = earliest-Pending es now _ h

  -- Where a live connection's timer is due, the next expiry says so, and the worker looks.
  pub get_next_expiry-Pending :
      (es : TimerWheel) (now : ℕ) → Pending es now → get_next_expiry alive es ≤ now
  unfolding get_next_expiry
  get_next_expiry-Pending es now h = earliest-Pending es now infinite_timestamp h
